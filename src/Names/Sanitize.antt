-- ===== src/Names/Sanitize.antt =====
-- What SanitizeName promises about its result.
use traefik_connect.Common.{
  String, Char, code, Bool, true, false, ◌≡◌, ◌≢◌, refl, ◌⊎◌, inl, inr, Unicode, to_lower,
  is_letter, is_digit, trim_left, trim_right, trim_space, cons_trimmed, arith, Bool-cases, eq_iff,
  ◌==◌, ==-false, sym, ap,
}
use mathlib.Core.Path.{ap₂}
use text.Mathlib.TextEquality.{Char-path}
use traefik_connect.Names.{dash, is_dash, is_word, or_unnamed, sanitize_runes, sanitize_name}

module _ (u : Unicode) where
  -- Letters, digits and single dashes; no dash first where `after_dash` holds.
  abbrev pub IsSpaced : Bool → String → Type 0
  IsSpaced after_dash String.[] = Unit
  IsSpaced after_dash (String.◌∷◌ c s) =
      ((is_word u c ≡ true) × IsSpaced false s)
      ⊎ ((code c ≡ b'-') × (after_dash ≡ false) × IsSpaced true s)

  abbrev pub EndsInWord : String → Type 0
  EndsInWord String.[] = Unit
  EndsInWord (String.◌∷◌ c String.[]) = is_word u c ≡ true
  EndsInWord (String.◌∷◌ c (String.◌∷◌ d s)) = EndsInWord (String.◌∷◌ d s)

  -- Fit for a name: not empty, of letters, digits and dashes, with no dash first, last or after
  -- another dash.
  pub record IsName (s : String) : Type 0 where
    pub ne_empty : s ≢ ""
    pub spaced : IsSpaced true s
    pub ends : EndsInWord s

  word-ne-dash : (c : Char) → is_word u c ≡ true → code c ≢ b'-'
  unfolding is_letter is_digit
  word-ne-dash c h e = ground arith

  sanitize_runes-IsSpaced : (s : String) (d : Bool) → IsSpaced d (sanitize_runes u s d)
  unfolding sanitize_runes
  sanitize_runes-IsSpaced String.[] d = tt
  sanitize_runes-IsSpaced (String.◌∷◌ c s) true =
      ground (arith, sanitize_runes-IsSpaced s false, sanitize_runes-IsSpaced s true)
  sanitize_runes-IsSpaced (String.◌∷◌ c s) false =
      ground (arith, sanitize_runes-IsSpaced s false, sanitize_runes-IsSpaced s true)

  trim_left-IsSpaced : (d : Bool) (s : String) → IsSpaced d s → IsSpaced true (trim_left is_dash s)
  unfolding trim_left
  trim_left-IsSpaced d String.[] h = tt
  trim_left-IsSpaced d (String.◌∷◌ c s) h =
      ground (arith, word-ne-dash c, trim_left-IsSpaced true s)

  cons_trimmed-IsSpaced :
      (d : Bool) (c : Char) (t : String)
      → IsSpaced d (String.◌∷◌ c t)
      → IsSpaced d (cons_trimmed is_dash c t)
  cons_trimmed-IsSpaced d c String.[] h = elim (Bool-cases (is_dash c)) [
    | inl e ↦ rw e tt
    | inr e ↦ rw e (ground (arith, word-ne-dash c))
  ]
  cons_trimmed-IsSpaced d c (String.◌∷◌ e t) h = h

  cons_trimmed-EndsInWord :
      (d : Bool) (c : Char) (t : String)
      → IsSpaced d (String.◌∷◌ c t)
      → EndsInWord t
      → EndsInWord (cons_trimmed is_dash c t)
  cons_trimmed-EndsInWord d c String.[] h k = elim (Bool-cases (is_dash c)) [
    | inl e ↦ rw e tt
    | inr e ↦ rw e (ground arith)
  ]
  cons_trimmed-EndsInWord d c (String.◌∷◌ e t) h k = k

  trim_right-IsSpaced : (d : Bool) (s : String) → IsSpaced d s → IsSpaced d (trim_right is_dash s)
  unfolding trim_right
  trim_right-IsSpaced d String.[] h = tt
  trim_right-IsSpaced d (String.◌∷◌ c s) (inl (w, h)) =
      cons_trimmed-IsSpaced d c (trim_right is_dash s) (inl (w, trim_right-IsSpaced false s h))
  trim_right-IsSpaced d (String.◌∷◌ c s) (inr (e, f, h)) =
      cons_trimmed-IsSpaced d c (trim_right is_dash s) (inr (e, f, trim_right-IsSpaced true s h))

  trim_right-EndsInWord : (d : Bool) (s : String) → IsSpaced d s → EndsInWord (trim_right is_dash s)
  unfolding trim_right
  trim_right-EndsInWord d String.[] h = tt
  trim_right-EndsInWord d (String.◌∷◌ c s) (inl (w, h)) =
      cons_trimmed-EndsInWord d c (trim_right is_dash s) (inl (w, trim_right-IsSpaced false s h))
        (trim_right-EndsInWord false s h)
  trim_right-EndsInWord d (String.◌∷◌ c s) (inr (e, f, h)) =
      cons_trimmed-EndsInWord d c (trim_right is_dash s) (inr (e, f, trim_right-IsSpaced true s h))
        (trim_right-EndsInWord true s h)

  unnamed-IsName : IsName "unnamed"
  unfolding is_letter is_digit
  unnamed-IsName = record {
    ne_empty = ground (arith, eq_iff "unnamed" "");
    spaced = ground arith;
    ends = refl;
  }

  or_unnamed-IsName : (s : String) → IsSpaced true s → EndsInWord s → IsName (or_unnamed s)
  or_unnamed-IsName s h k = elim (Bool-cases (s == "")) [
    | inl e ↦ rw e unnamed-IsName
    | inr e ↦ rw e (record { ne_empty = ground (arith, eq_iff s ""); spaced = h; ends = k })
  ]

  -- Whatever the text, SanitizeName returns one that is fit for a name.
  pub sanitize_name-IsName : (s : String) → IsName (sanitize_name u s)
  unfolding sanitize_name
  sanitize_name-IsName s =
      let t = trim_space (to_lower u s) in
      let body = trim_left is_dash (sanitize_runes u t false) in
      let spaced = trim_left-IsSpaced false _ (sanitize_runes-IsSpaced t false) in
      elim (Bool-cases (t == "")) [
        | inl e ↦ rw e unnamed-IsName
        | inr e ↦ rw e (
            or_unnamed-IsName (trim_right is_dash body) (trim_right-IsSpaced true body spaced)
              (trim_right-EndsInWord true body spaced))
      ]

  is_dash-word : (c : Char) → is_word u c ≡ true → is_dash c ≡ false
  is_dash-word c h = ground (arith, word-ne-dash c h)

  not_word_of_dash : (c : Char) → code c ≡ b'-' → is_word u c ≡ false
  unfolding is_letter is_digit
  not_word_of_dash c e = ground arith

  dash-eq : (c : Char) → code c ≡ b'-' → dash ≡ c
  dash-eq c e = Char-path dash c (sym e)

  sanitize_runes_of_IsSpaced : (d : Bool) (s : String) → IsSpaced d s → sanitize_runes u s d ≡ s
  unfolding sanitize_runes
  sanitize_runes_of_IsSpaced d String.[] h = refl
  sanitize_runes_of_IsSpaced d (String.◌∷◌ c s) (inl (w, h)) =
      rw w (ap (String.◌∷◌ c) (sanitize_runes_of_IsSpaced false s h))
  sanitize_runes_of_IsSpaced d (String.◌∷◌ c s) (inr (e, f, h)) =
      rw (not_word_of_dash c e, f)
        (ap₂ String.◌∷◌ (dash-eq c e) (sanitize_runes_of_IsSpaced true s h))

  trim_left_of_IsSpaced : (s : String) → IsSpaced true s → trim_left is_dash s ≡ s
  unfolding trim_left
  trim_left_of_IsSpaced String.[] h = refl
  trim_left_of_IsSpaced (String.◌∷◌ c s) (inl (w, h)) = rw (is_dash-word c w)
  trim_left_of_IsSpaced (String.◌∷◌ c s) (inr (e, f, h)) = cc f

  trim_right_of_EndsInWord : (s : String) → EndsInWord s → trim_right is_dash s ≡ s
  unfolding trim_right
  trim_right_of_EndsInWord String.[] h = refl
  trim_right_of_EndsInWord (String.◌∷◌ c String.[]) w = rw (is_dash-word c w)
  trim_right_of_EndsInWord (String.◌∷◌ c (String.◌∷◌ d s)) h =
      rw (trim_right_of_EndsInWord (String.◌∷◌ d s) h)

  IsSpaced-weaken : (d : Bool) (s : String) → IsSpaced true s → IsSpaced d s
  IsSpaced-weaken d String.[] h = tt
  IsSpaced-weaken d (String.◌∷◌ c s) (inl h) = inl h
  IsSpaced-weaken d (String.◌∷◌ c s) (inr (e, f, h)) = cc f

  -- A text that is fit for a name, that lower-casing leaves alone and that has no space at its ends,
  -- is returned as it is.
  sanitize_name_of_IsName :
      (s : String) → IsName s → to_lower u s ≡ s → trim_space s ≡ s → sanitize_name u s ≡ s
  unfolding sanitize_name
  sanitize_name_of_IsName s n low trimmed = rw (
    low,
    trimmed,
    ==-false s "" n.ne_empty,
    sanitize_runes_of_IsSpaced false s (IsSpaced-weaken false s n.spaced),
    trim_left_of_IsSpaced s n.spaced,
    trim_right_of_EndsInWord s n.ends,
    ==-false s "" n.ne_empty,
  )
