-- ===== src/DeviceTree/Bytes.antt =====
-- crates/devicetree/src/lib.rs: the functions on raw bytes at its end, and what they use of the standard library: slices,
-- whose bounds are checked, big-endian words and the validation of UTF-8. A string is the list of its bytes.
mod Rounding
mod Words
unfoldable pub use Rounding.*
unfoldable pub use Words.*
use novos.Prelude.{
  ℕ, zero, suc, ◌+◌, ◌-◌, ◌*◌, ◌^◌, ◌≡◌, refl, Bool, true, false, ◌&&◌, List, [], ◌∷◌, Option, none,
  some, length, take, drop, ltb, leb, ◌==◌, if◌then◌else◌, Run, ok, panic, ◌>>=◌,
}

-- `&bytes[from..]`, `&bytes[..upto]` and `&bytes[from..upto]`.
abbrev pub slice_from : List ℕ → ℕ → Run (List ℕ)
slice_from bytes from = if ltb (length bytes) from then panic else ok (drop from bytes)

abbrev pub slice_upto : List ℕ → ℕ → Run (List ℕ)
slice_upto bytes upto = if ltb (length bytes) upto then panic else ok (take upto bytes)

abbrev pub slice_between : List ℕ → ℕ → ℕ → Run (List ℕ)
slice_between bytes from upto =
    if ltb upto from then panic else (slice_upto bytes upto >>= λ front. slice_from front from)

-- `bytes.get(..upto)`
abbrev pub get_upto : List ℕ → ℕ → Option (List ℕ)
get_upto bytes upto = if ltb (length bytes) upto then none else some (take upto bytes)

-- Equality of strings, and `starts_with`.
unfoldable pub same_bytes : List ℕ → List ℕ → Bool
same_bytes [] [] = true
same_bytes [] (y ∷ ys) = false
same_bytes (x ∷ xs) [] = false
same_bytes (x ∷ xs) (y ∷ ys) = x == y && same_bytes xs ys

unfoldable pub starts_with : List ℕ → List ℕ → Bool
starts_with text [] = true
starts_with [] (p ∷ prefix) = false
starts_with (x ∷ text) (p ∷ prefix) = x == p && starts_with text prefix

unfoldable pub memchr_from : ℕ → ℕ → List ℕ → Option ℕ
memchr_from position needle [] = none
memchr_from position needle (x ∷ haystack) =
    if x == needle then some position else memchr_from (suc position) needle haystack

unfoldable pub memchr : ℕ → List ℕ → Option ℕ
unfolding memchr_from
memchr needle haystack = memchr_from 0 needle haystack

unfoldable pub next_str : List ℕ → Option (List ℕ)
unfolding memchr
next_str bytes = elim (memchr 0x00 bytes) [ none ↦ none | some nul_pos ↦ some (take nul_pos bytes) ]

-- `str::from_utf8`: the bytes still wanted for the character that was begun, the least and the greatest that the next
-- of them may be, and the bytes that follow.
unfoldable pub utf8_from : ℕ → ℕ → ℕ → List ℕ → Bool
utf8_from zero least greatest [] = true
utf8_from (suc wanted) least greatest [] = false
utf8_from (suc wanted) least greatest (b ∷ bytes) =
    leb least b && leb b greatest && utf8_from wanted 0x80 0xBF bytes
utf8_from zero least greatest (b ∷ bytes) =
    if ltb b 0x80
    then utf8_from 0 0x80 0xBF bytes
    else if ltb b 0xC2
    then false
    else if leb b 0xDF
    then utf8_from 1 0x80 0xBF bytes
    else if leb b 0xEF
    then utf8_from 2 (if b == 0xE0 then 0xA0 else 0x80) (if b == 0xED then 0x9F else 0xBF) bytes
    else if leb b 0xF4
    then utf8_from 3 (if b == 0xF0 then 0x90 else 0x80) (if b == 0xF4 then 0x8F else 0xBF) bytes
    else false

unfoldable pub is_utf8 : List ℕ → Bool
unfolding utf8_from
is_utf8 bytes = utf8_from 0 0x80 0xBF bytes

-- `s.is_empty().not().then(|| s)`
abbrev pub not_empty : List ℕ → Option (List ℕ)
not_empty [] = none
not_empty (c ∷ text) = some (c ∷ text)

unfoldable pub next_str_checked : List ℕ → Option (List ℕ)
unfolding next_str memchr is_utf8
next_str_checked bytes = elim (memchr 0x00 bytes) [
  | none ↦ none
  | some nul_pos ↦ if is_utf8 (take nul_pos bytes) then not_empty (take nul_pos bytes) else none
]
