-- ===== src/PollCreate/Trim.antt =====
-- How the indexer trims what the form has trimmed (indexer/src/description_manager.rs).
use mootvote.Base.{
  ℕ, ◌≡◌, refl, ap, ◌∙◌, [], ◌∷◌, Bool, false, not, ◌&&◌, ◌||◌, ◌==◌, if◌then◌else◌, All, inl, inr,
  Bool-cases,
}
use mootvote.Blob.{Text}
use mootvote.Keyring.{is_space, trim_start, trim_end}

-- White space in Rust: that of JavaScript with U+0085 and without U+FEFF.
abbrev is_white : ℕ → Bool
is_white c = ((c == 133) || is_space c) && not (c == 65279)

abbrev start_white : Text → Text
start_white [] = []
start_white (c ∷ s) = let rest = start_white s in if is_white c then rest else c ∷ s

abbrev end_white : Text → Text
end_white [] = []
end_white (c ∷ s) =
    let rest = end_white s in
    elim rest [ [] ↦ if is_white c then [] else c ∷ [] | d ∷ ds ↦ c ∷ d ∷ ds ]

-- `str::trim`
unfoldable pub rust_trim : Text → Text
rust_trim s = end_white (start_white s)

-- The last character satisfies `P`, if there is one.
abbrev Ends : (ℕ → Type 0) → Text → Type 0
Ends P [] = Unit
Ends P (c ∷ []) = P c
Ends P (c ∷ d ∷ s) = Ends P (d ∷ s)

abbrev Starts : (ℕ → Type 0) → Text → Type 0
Starts P [] = Unit
Starts P (c ∷ s) = P c

abbrev Seen : ℕ → Type 0
Seen c = is_space c ≡ false

trim_start-Starts : (s : Text) → Starts Seen (trim_start s)
unfolding trim_start
trim_start-Starts [] = tt
trim_start-Starts (c ∷ s) = elim (Bool-cases (is_space c)) [
  | inl e ↦ rw e (trim_start-Starts s)
  | inr e ↦ rw e e
]

-- One round of `trimEnd`, on what is kept behind the character.
abbrev kept : ℕ → Text → Text
kept c rest = elim rest [ [] ↦ if is_space c then [] else c ∷ [] | d ∷ ds ↦ c ∷ d ∷ ds ]

kept-Starts : (c : ℕ) (rest : Text) → Seen c → Starts Seen (kept c rest)
kept-Starts c [] h = rw h h
kept-Starts c (d ∷ ds) h = h

kept-Ends : (c : ℕ) (rest : Text) → Ends Seen rest → Ends Seen (kept c rest)
kept-Ends c [] h = elim (Bool-cases (is_space c)) [ inl e ↦ rw e tt | inr e ↦ rw e e ]
kept-Ends c (d ∷ ds) h = h

trim_end-Starts : (s : Text) → Starts Seen s → Starts Seen (trim_end s)
unfolding trim_end
trim_end-Starts [] h = tt
trim_end-Starts (c ∷ s) h = kept-Starts c (trim_end s) h

trim_end-Ends : (s : Text) → Ends Seen (trim_end s)
unfolding trim_end
trim_end-Ends [] = tt
trim_end-Ends (c ∷ s) = kept-Ends c (trim_end s) (trim_end-Ends s)

-- A character that is not U+0085, which only Rust takes for white space.
abbrev pub NotNel : ℕ → Type 0
NotNel c = (c == 133) ≡ false

abbrev Plain : ℕ → Type 0
Plain c = is_white c ≡ false

Seen-Plain : (c : ℕ) → Seen c → NotNel c → Plain c
Seen-Plain c h n = rw (n, h) refl

Starts-Plain : (s : Text) → Starts Seen s → All NotNel s → Starts Plain s
Starts-Plain [] h n = tt
Starts-Plain (c ∷ s) h n = Seen-Plain c h n.0

Ends-Plain : (s : Text) → Ends Seen s → All NotNel s → Ends Plain s
Ends-Plain [] h n = tt
Ends-Plain (c ∷ []) h n = Seen-Plain c h n.0
Ends-Plain (c ∷ d ∷ s) h n = Ends-Plain (d ∷ s) h n.1

start_white-Starts : (s : Text) → Starts Plain s → start_white s ≡ s
start_white-Starts [] h = refl
start_white-Starts (c ∷ s) h = rw h refl

end_white-Ends : (s : Text) → Ends Plain s → end_white s ≡ s
end_white-Ends [] h = refl
end_white-Ends (c ∷ []) h = rw h refl
end_white-Ends (c ∷ d ∷ s) h = rw (end_white-Ends (d ∷ s) h) refl

abbrev pub js_trim : Text → Text
js_trim s = trim_end (trim_start s)

-- What the form has trimmed stays as it is.
pub rust_trim-js_trim : (s : Text) → All NotNel (js_trim s) → rust_trim (js_trim s) ≡ js_trim s
unfolding rust_trim
rust_trim-js_trim s n =
    let starts =
      Starts-Plain (js_trim s) (trim_end-Starts (trim_start s) (trim_start-Starts s)) n in
    ap end_white (start_white-Starts (js_trim s) starts)
    ∙ end_white-Ends (js_trim s) (Ends-Plain (js_trim s) (trim_end-Ends (trim_start s)) n)
