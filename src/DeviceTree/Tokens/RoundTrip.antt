-- ===== src/DeviceTree/Tokens/RoundTrip.antt =====
-- The tokens that `next` reads from the bytes of the format.
use novos.Prelude.{
  ℕ, zero, suc, ◌+◌, ◌-◌, ◌^◌, ◌≤◌, ◌<◌, ◌≡◌, refl, sym, ap, ◌∙◌, List, [], ◌∷◌, ◌++◌, some, none,
  length, take, drop, replicate, length-append, take-append, drop-append, le→not-ltb, ok, arith,
}
use novos.DeviceTree.Bytes.{
  from_be_bytes-to_be_bytes, to_be_bytes, padded, align_up, align_up-padded, memchr, memchr_from,
  next_str,
}
use novos.DeviceTree.Tokens.{
  Token, begin_node, property, end_node, next, next_u32, next_name, next_property, next_by,
}
use novos.DeviceTree.Format.{
  word, pad, token_bytes, nops, NoNul, Encodable, AllEncodable, block_bytes, without_nops, Yields,
}
use mathlib.Core.List.{append_assoc}

length-replicate : (n a : ℕ) → length (replicate n a) ≡ n
length-replicate zero a = refl
length-replicate (suc n) a = ap suc (length-replicate n a)

length-pad : (bytes : List ℕ) → length (pad bytes) ≡ padded (length bytes)
length-pad bytes = omega (
  arith,
  length-append bytes (replicate (padded (length bytes) - length bytes) 0),
  length-replicate (padded (length bytes) - length bytes) 0,
)

-- A word at the front.
pub next_u32-word :
    (v : ℕ) (rest : List ℕ) → v < 2 ^ 32 → next_u32 (word v ++ rest) ≡ ok (some v, rest)
unfolding next_u32 to_be_bytes
next_u32-word v rest h =
    ap (λ (w : ℕ). ok (some w, rest)) (unfold to_be_bytes in from_be_bytes-to_be_bytes 4 v h)

next-word :
    (v : ℕ) (rest : List ℕ) → v < 2 ^ 32 → next (word v ++ rest) ≡ next_by v (next rest) rest
unfolding next to_be_bytes
next-word v rest h =
    ap (λ (w : ℕ). next_by w (next rest) rest)
      (unfold to_be_bytes in from_be_bytes-to_be_bytes 4 v h)

pub memchr_from-nul :
    (position : ℕ) (name rest : List ℕ)
    → NoNul name
    → memchr_from position 0 (name ++ (0 ∷ rest)) ≡ some (position + length name)
unfolding memchr_from
memchr_from-nul position [] rest h = ap some (omega arith)
memchr_from-nul position (c ∷ name) rest h =
    ground (arith, memchr_from-nul (suc position) name rest h.1)

pub next_str-nul : (name rest : List ℕ) → NoNul name → next_str (name ++ (0 ∷ rest)) ≡ some name
unfolding next_str memchr
next_str-nul name rest h =
    let position : 0 + length name ≡ length name = omega arith in
    rw (next_str, memchr, memchr_from-nul 0 name rest h, position, take-append name (0 ∷ rest)) refl

-- Behind the padded bytes lies what follows them.
drop-pad : (bytes rest : List ℕ) → drop (padded (length bytes)) (pad bytes ++ rest) ≡ rest
drop-pad bytes rest =
    ap (λ n. drop n (pad bytes ++ rest)) (sym (length-pad bytes)) ∙ drop-append (pad bytes) rest

pad-fits : (bytes rest : List ℕ) → padded (length bytes) ≤ length (pad bytes ++ rest)
pad-fits bytes rest = omega (arith, length-append (pad bytes) rest, length-pad bytes)

next_name-pad :
    (name rest : List ℕ)
    → Encodable (begin_node name)
    → next_name (pad (name ++ (0 ∷ [])) ++ rest) ≡ ok (some (begin_node name), rest)
unfolding next_name
next_name-pad name rest h =
    let terminated : List ℕ = name ++ (0 ∷ []) in
    let padding : List ℕ = replicate (padded (length terminated) - length terminated) 0 in
    let found : next_str (pad terminated ++ rest) ≡ some name =
      ap next_str
        (append_assoc terminated padding rest ∙ append_assoc name (0 ∷ []) (padding ++ rest))
      ∙ next_str-nul name (padding ++ rest) h.0 in
    let len : length name + 1 ≡ length terminated = sym (length-append name (0 ∷ [])) in
    let size : align_up (length name + 1) 4 ≡ ok (padded (length terminated)) =
      align_up-padded (length name + 1) (omega arith) ∙ ap (λ n. ok (padded n)) len in
    let room = le→not-ltb _ _ (pad-fits terminated rest) in
    rw (found, size, room, drop-pad terminated rest) refl

next_property-pad :
    (content : List ℕ) (name_off : ℕ) (rest : List ℕ)
    → Encodable (property content name_off)
    → next_property (word (length content) ++ (word name_off ++ (pad content ++ rest)))
      ≡ ok (some (property content name_off), rest)
unfolding next_property
next_property-pad content name_off rest h =
    let padding : List ℕ = replicate (padded (length content) - length content) 0 in
    let back = append_assoc content padding rest in
    let front : take (length content) (pad content ++ rest) ≡ content =
      ap (take (length content)) back ∙ take-append content (padding ++ rest) in
    let fits =
      le→not-ltb (length (pad content ++ rest)) (length content)
        (omega (arith, ap (length {A = ℕ}) back, length-append content (padding ++ rest))) in
    rw
      (
        next_u32-word (length content) (word name_off ++ (pad content ++ rest)) h.0,
        next_u32-word name_off (pad content ++ rest) h.1,
        fits,
        front,
        align_up-padded (length content) (omega arith),
        le→not-ltb _ _ (pad-fits content rest),
        drop-pad content rest,
      )
      refl

next-token :
    (token : Token) (rest : List ℕ)
    → Encodable token
    → next (token_bytes token ++ rest) ≡ ok (some token, rest)
unfolding next_by
next-token (begin_node name) rest h =
    ap next (append_assoc (word 1) (pad (name ++ (0 ∷ []))) rest)
    ∙ (next-word 1 (pad (name ++ (0 ∷ [])) ++ rest) (omega arith) ∙ next_name-pad name rest h)
next-token (property content name_off) rest h =
    let front = word (length content) in
    let middle = word name_off in
    ap next (append_assoc (word 3) (front ++ (middle ++ pad content)) rest)
    ∙ (next-word 3 ((front ++ (middle ++ pad content)) ++ rest) (omega arith)
        ∙ (ap next_property (
              append_assoc front (middle ++ pad content) rest
              ∙ ap (λ bytes. front ++ bytes) (append_assoc middle (pad content) rest))
            ∙ next_property-pad content name_off rest h))
next-token end_node rest h = next-word 2 rest (omega arith)

-- `next` reads back every token that the format can write, behind any number of NOP words, and leaves what
-- follows it.
pub next-token_bytes :
    (n : ℕ) (token : Token) (rest : List ℕ)
    → Encodable token
    → next (nops n ++ (token_bytes token ++ rest)) ≡ ok (some token, rest)
unfolding next_by
next-token_bytes zero token rest h = next-token token rest h
next-token_bytes (suc n) token rest h =
    ap next (append_assoc (word 4) (nops n) (token_bytes token ++ rest))
    ∙ (next-word 4 (nops n ++ (token_bytes token ++ rest)) (omega arith)
        ∙ next-token_bytes n token rest h)

-- A block of tokens yields them, without its NOP words.
pub block_bytes-Yields :
    (tokens : List (ℕ × Token)) (rest : List ℕ)
    → AllEncodable tokens
    → Yields (block_bytes tokens ++ rest) (without_nops tokens) rest
block_bytes-Yields [] rest fits = refl
block_bytes-Yields ((n, token) ∷ tokens) rest fits = (
  block_bytes tokens ++ rest,
  ap next (
        append_assoc (nops n) (token_bytes token ++ block_bytes tokens) rest
        ∙ ap (λ bytes. nops n ++ bytes)
            (append_assoc (token_bytes token) (block_bytes tokens) rest))
      ∙ next-token_bytes n token (block_bytes tokens ++ rest) fits.0,
  block_bytes-Yields tokens rest fits.1,
)

-- The end of a block is no token.
pub next-end : (n : ℕ) (rest : List ℕ) → next (nops n ++ (word 9 ++ rest)) ≡ ok (none, rest)
unfolding next_by
next-end zero rest = next-word 9 rest (omega arith)
next-end (suc n) rest =
    ap next (append_assoc (word 4) (nops n) (word 9 ++ rest))
    ∙ (next-word 4 (nops n ++ (word 9 ++ rest)) (omega arith) ∙ next-end n rest)
