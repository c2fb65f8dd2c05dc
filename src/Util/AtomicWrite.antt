-- ===== src/Util/AtomicWrite.antt =====
-- internal/util/atomicwrite.go: AtomicWriteFile, over a directory of files with what each of them holds.
-- Each call of the operating system may fail; a rename happens whole or not at all.
pub mod Laws
pub mod Tests
use Prim.Native.String.{◌++◌}
use traefik_connect.Common.{
  String, Option, none, some, List, [], ◌∷◌, Dict, lookup, insert, remove, Result, ok, err, text_at,
}

-- What the calls answer: os.MkdirAll, os.CreateTemp, with the file's name, tmp.Chmod, tmp.Write, with
-- what the file holds after it, tmp.Sync, tmp.Close and os.Rename.
pub record Calls : Type 0 where
  pub mkdir_all : Result (Unit {0})
  pub create_temp : Result String
  pub chmod : Result (Unit {0})
  pub write : String → Result (Unit {0}) × String
  pub sync : Result (Unit {0})
  pub close : Result (Unit {0})
  pub rename : Result (Unit {0})

abbrev pub Files : Type 0
Files = Dict String

-- The result, with the states of the directory that were passed through, the last one first.
abbrev pub Run : Type 0
Run = Result (Unit {0}) × List Files

abbrev pub after : Result (Unit {0}) → List Files → Run → Run
after (err e) visited next = (err e, visited)
after (ok _) visited next = next

abbrev pub renamed : Result (Unit {0}) → String → String → String → Files → List Files → Run
renamed (err e) tmp path held files visited = (err ("rename temp file: " ++ e), visited)
renamed (ok _) tmp path held files visited = (ok tt, insert path held (remove tmp files) ∷ visited)

-- The calls on the temporary file, from the state in which it is new and empty. The directory is
-- synchronized last, without a look at the result.
pub fill_and_rename : Calls → String → String → String → List Files → Files → Run
fill_and_rename calls path content tmp visited files =
    let empty = insert tmp "" files in
    let (written, held) = calls.write content in
    let full = insert tmp held files in
    after calls.chmod (empty ∷ visited) (
      after written (full ∷ empty ∷ visited) (
        after calls.sync (full ∷ empty ∷ visited) (
          after calls.close (full ∷ empty ∷ visited)
            (renamed calls.rename tmp path held full (full ∷ empty ∷ visited)))))

-- The deferred os.Remove of the temporary file.
abbrev pub cleaned : String → Run → Run
cleaned tmp (r, []) = (r, [])
cleaned tmp (r, files ∷ visited) = (r, remove tmp files ∷ files ∷ visited)

abbrev pub with_temp : Calls → String → String → Files → Result String → Run
with_temp calls path content files (err e) = (err e, files ∷ [])
with_temp calls path content files (ok tmp) =
    cleaned tmp (fill_and_rename calls path content tmp (files ∷ []) files)

pub atomic_write_file : Calls → String → String → Files → Run
atomic_write_file calls path content files =
    after calls.mkdir_all (files ∷ []) (with_temp calls path content files calls.create_temp)
