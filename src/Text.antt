-- ===== src/Text.antt =====
-- The text functions of Go's standard library that the source uses. A text is a string of Unicode
-- characters, as a protobuf string is; `len` counts its bytes in UTF-8.
use Prim.Native.Char.{Char, code}
use Prim.Native.String.{len, ◌++◌ as concat}
use text.Mathlib.TextPositions.{len-append}
use openshell_drivers_contri.Prelude.{
  ◌+◌, ◌<◌, sym, ap, ◌∙◌, eq_iff, Bool-cases, inl, inr, arith, ℕ, String, ◌≡◌, refl, Bool, true,
  false, ◌&&◌, ◌||◌, Option, none, some, ltb, leb, eqb, ◌==◌, if◌then◌else◌,
}

-- unicode.IsControl: the code points below 32, and those from 127 to 159.
unfoldable pub is_control : ℕ → Bool
is_control c = ltb c 32 || leb 127 c && leb c 159

-- strings.IndexFunc(s, unicode.IsControl) >= 0
unfoldable pub has_control : String → Bool
unfolding is_control
has_control String.[] = false
has_control (String.◌∷◌ c s) = is_control (code c) || has_control s

-- unicode.IsSpace
unfoldable pub is_space : ℕ → Bool
is_space c =
    leb 9 c && leb c 13
    || eqb c 0x20
    || eqb c 0x85
    || eqb c 0xa0
    || eqb c 0x1680
    || leb 0x2000 c && leb c 0x200a
    || eqb c 0x2028
    || eqb c 0x2029
    || eqb c 0x202f
    || eqb c 0x205f
    || eqb c 0x3000

unfoldable pub trim_left : String → String
unfolding is_space
trim_left String.[] = String.[]
trim_left (String.◌∷◌ c s) =
    let rest = trim_left s in if is_space (code c) then rest else String.◌∷◌ c s

unfoldable pub trim_right : String → String
unfolding is_space
trim_right String.[] = String.[]
trim_right (String.◌∷◌ c s) =
    let rest = trim_right s in if rest == "" && is_space (code c) then "" else String.◌∷◌ c rest

-- strings.TrimSpace
unfoldable pub trim_space : String → String
unfolding trim_left trim_right
trim_space s = trim_right (trim_left s)

prepend : Char → Option String → Option String
prepend c none = none
prepend c (some s) = some (String.◌∷◌ c s)

-- strings.HasSuffix and strings.TrimSuffix: the text without the suffix, if it has it.
unfoldable pub cut_suffix : String → String → Option String
unfolding prepend
cut_suffix suffix String.[] = if suffix == "" then some "" else none
cut_suffix suffix (String.◌∷◌ c s) =
    let rest = prepend c (cut_suffix suffix s) in if suffix == String.◌∷◌ c s then some "" else rest

before : Char → Option (String × String) → Option (String × String)
before c none = none
before c (some (s, t)) = some (String.◌∷◌ c s, t)

-- strings.Cut at the first character of a code point: the texts around it.
unfoldable pub cut_at : ℕ → String → Option (String × String)
unfolding before
cut_at n String.[] = none
cut_at n (String.◌∷◌ c s) =
    let rest = before c (cut_at n s) in if eqb (code c) n then some ("", s) else rest

-- Whether a character of the set stands in the text: strings.ContainsAny.
member : ℕ → String → Bool
member n String.[] = false
member n (String.◌∷◌ c s) = eqb (code c) n || member n s

unfoldable pub contains_any : String → String → Bool
unfolding member
contains_any chars String.[] = false
contains_any chars (String.◌∷◌ c s) = member (code c) chars || contains_any chars s

tests :
    (has_control "ab\u{7}" ≡ true)
    × (trim_space "  4 \n" ≡ "4")
    × (cut_suffix "Gi" "32Gi" ≡ some "32")
    × (cut_suffix "m" "32Gi" ≡ none)
    × (cut_at 0x3d "a=b=c" ≡ some ("a", "b=c"))
    × (contains_any "\r\n" "a\nb" ≡ true)
unfolding has_control trim_space cut_suffix cut_at contains_any
tests = (refl, refl, refl, refl, refl, refl)

-- A text that begins with one that is not empty.
pub append_given : (s t : String) → 0 < len s → (concat s t == "") ≡ false
append_given s t h = elim (Bool-cases (concat s t == "")) [
  | inr given ↦ given
  | inl empty ↦
      (let length : len s + len t ≡ 0 =
          sym (len-append s t) ∙ ap len ((eq_iff (concat s t) "").0 empty) in
        absurd (omega arith))
]
