-- ===== src/Util/AtomicWrite/Laws.antt =====
-- internal/util/atomicwrite.go: a file is replaced whole or not at all.
use Prim.Native.String.{◌++◌}
use traefik_connect.Common.{
  String, false, some, List, [], ◌∷◌, ◌==◌, lookup, insert, remove, lookup-insert, lookup-remove,
  Result, ok, err, ◌≡◌, refl, ◌∙◌, ap, ◌⊎◌, inl, inr, All, ==-true,
}
use traefik_connect.Util.AtomicWrite.{
  Calls, Files, Run, after, renamed, fill_and_rename, cleaned, with_temp, atomic_write_file,
}

insert-other :
    (tmp path x : String) (f : Files)
    → (tmp == path) ≡ false
    → lookup path (insert tmp x f) ≡ lookup path f
insert-other tmp path x f ne = lookup-insert tmp path x f ∙ rw ne refl

remove-other :
    (tmp path : String) (f : Files)
    → (tmp == path) ≡ false
    → lookup path (remove tmp f) ≡ lookup path f
remove-other tmp path f ne = lookup-remove tmp path f ∙ rw ne refl

insert-same : (path x : String) (f : Files) → lookup path (insert path x f) ≡ some x
insert-same path x f = lookup-insert path path x f ∙ rw (==-true path path refl) refl

module _ (path content : String) (before : Files) where
  -- The file holds what it held before, or the new data.
  abbrev pub IsWhole : Files → Type 0
  IsWhole f = (lookup path f ≡ lookup path before) ⊎ (lookup path f ≡ some content)

  -- At the end it holds the new data after a success, and what it held before after an error.
  abbrev pub IsSettled : Run → Type 0
  IsSettled (ok x, f ∷ visited) = lookup path f ≡ some content
  IsSettled (err e, f ∷ visited) = lookup path f ≡ lookup path before
  IsSettled (r, []) = ⊥

  abbrev IsSafe : Run → Type 0
  IsSafe run = All IsWhole run.1 × IsSettled run

  after-IsSafe :
      (r : Result (Unit {0})) (visited : List Files) (next : Run)
      → ((e : String) → IsSafe (err e, visited))
      → IsSafe next
      → IsSafe (after r visited next)
  after-IsSafe (err e) visited next h k = h e
  after-IsSafe (ok x) visited next h k = k

  cleaned-IsSafe :
      (tmp : String) (run : Run) → (tmp == path) ≡ false → IsSafe run → IsSafe (cleaned tmp run)
  cleaned-IsSafe tmp (ok x, []) ne (hs, h) = elim h [ ]
  cleaned-IsSafe tmp (err e, []) ne (hs, h) = elim h [ ]
  cleaned-IsSafe tmp (ok x, f ∷ visited) ne (hs, h) =
      let new = remove-other tmp path f ne ∙ h in ((inr new, hs), new)
  cleaned-IsSafe tmp (err e, f ∷ visited) ne (hs, h) =
      let old = remove-other tmp path f ne ∙ h in ((inl old, hs), old)

  renamed-IsSafe :
      (r : Result (Unit {0})) (tmp held : String) (f : Files) (visited : List Files)
      → held ≡ content
      → ((e : String) → IsSafe (err e, visited))
      → IsSafe (renamed r tmp path held f visited)
  renamed-IsSafe (err e) tmp held f visited whole h = h ("rename temp file: " ++ e)
  renamed-IsSafe (ok x) tmp held f visited whole h =
      let new = insert-same path held (remove tmp f) ∙ ap some whole in ((inr new, (h "").0), new)

  -- What is known of the write: the data is there whole where it reports no error.
  written-IsSafe :
      (calls : Calls) (tmp : String) (w : Result (Unit {0}) × String)
      → ((w.0 ≡ ok tt) → w.1 ≡ content)
      → (visited : List Files) → ((e : String) → IsSafe (err e, visited))
      → IsSafe (
          after w.0 visited (
            after calls.sync visited (
              after calls.close visited
                (renamed calls.rename tmp path w.1 (insert tmp w.1 before) visited))))
  written-IsSafe calls tmp (err e, held) whole visited h = h e
  written-IsSafe calls tmp (ok x, held) whole visited h = after-IsSafe calls.sync visited _ h (
      after-IsSafe calls.close visited _ h
        (renamed-IsSafe calls.rename tmp held (insert tmp held before) visited (whole refl) h))

  fill_and_rename-IsSafe :
      (calls : Calls) (tmp : String)
      → (tmp == path) ≡ false
      → (((calls.write content).0 ≡ ok tt) → (calls.write content).1 ≡ content)
      → IsSafe (fill_and_rename calls path content tmp (before ∷ []) before)
  unfolding fill_and_rename
  fill_and_rename-IsSafe calls tmp ne whole =
      let empty = insert-other tmp path "" before ne in
      let full = insert-other tmp path (calls.write content).1 before ne in
      after-IsSafe calls.chmod _ _ (λ e. ((inl empty, (inl refl, tt)), empty))
        (written-IsSafe calls tmp (calls.write content) whole _
          (λ e. ((inl full, (inl empty, (inl refl, tt))), full)))

  with_temp-IsSafe :
      (calls : Calls) (r : Result String)
      → ((tmp : String) → r ≡ ok tmp → (tmp == path) ≡ false)
      → (((calls.write content).0 ≡ ok tt) → (calls.write content).1 ≡ content)
      → IsSafe (with_temp calls path content before r)
  with_temp-IsSafe calls (err e) fresh whole = ((inl refl, tt), refl)
  with_temp-IsSafe calls (ok tmp) fresh whole =
      cleaned-IsSafe tmp _ (fresh tmp refl)
        (fill_and_rename-IsSafe calls tmp (fresh tmp refl) whole)

  -- Whichever of its calls fail: in every state of the directory that AtomicWriteFile passes through, the
  -- file holds what it held before or the new data, whole; and at the end it holds the new data if
  -- no error is returned, and what it held before if one is. The temporary file has another name than
  -- the file, and a write that reports no error is complete.
  pub atomic_write_file_lem :
      (calls : Calls)
      → ((tmp : String) → calls.create_temp ≡ ok tmp → (tmp == path) ≡ false)
      → (((calls.write content).0 ≡ ok tt) → (calls.write content).1 ≡ content)
      → All IsWhole (atomic_write_file calls path content before).1
        × IsSettled (atomic_write_file calls path content before)
  unfolding atomic_write_file
  atomic_write_file_lem calls fresh whole =
      after-IsSafe calls.mkdir_all (before ∷ []) _ (λ e. ((inl refl, tt), refl))
        (with_temp-IsSafe calls calls.create_temp fresh whole)
