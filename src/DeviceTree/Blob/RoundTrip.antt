-- ===== src/DeviceTree/Blob/RoundTrip.antt =====
-- The parts of a blob that the code finds through its header.
use novos.Prelude.{
  ℕ, zero, suc, ◌+◌, ◌*◌, ◌^◌, ◌≤◌, ◌<◌, ◌≡◌, refl, sym, ap, ◌∙◌, List, [], ◌∷◌, ◌++◌, some, false,
  length, take, drop, get_elem?, length-append, take-append, drop-append, ltb, le→not-ltb, ok,
  ◌>>=◌, arith, usize_max,
}
use novos.DeviceTree.Bytes.{
  from_be_bytes, from_be_bytes-to_be_bytes, length-to_be_bytes, slice_from, slice_between, next_str,
}
use novos.DeviceTree.Blob.{
  DeviceTree, magic, from_ptr, u32_at, tokens, string_at, memory_reservations,
}
use novos.DeviceTree.Format.{
  word, Layout, struct_start, strings_start, blob_size, header, words_bytes, blob,
}
use mathlib.Core.List.{append_assoc}

pub slice_between-append :
    (front middle back : List ℕ)
    → slice_between (front ++ (middle ++ back)) (length front) (length front + length middle)
      ≡ ok middle
slice_between-append front middle back =
    let whole = front ++ (middle ++ back) in
    let upto = length front + length middle in
    let inner : length (front ++ middle) ≡ upto = length-append front middle in
    let regroup : whole ≡ (front ++ middle) ++ back = sym (append_assoc front middle back) in
    let cut : take upto whole ≡ front ++ middle =
      ap (take upto) regroup
      ∙ (ap (λ n. take n ((front ++ middle) ++ back)) (sym inner)
          ∙ take-append (front ++ middle) back) in
    let ordered : ltb upto (length front) ≡ false = le→not-ltb _ _ (omega arith) in
    let inside : ltb (length whole) upto ≡ false =
      le→not-ltb _ _
        (omega (arith, length-append front (middle ++ back), length-append middle back)) in
    let fits : ltb (length (front ++ middle)) (length front) ≡ false =
      le→not-ltb _ _ (omega (arith, inner)) in
    rw (ordered, inside, cut, fits, drop-append front middle) refl

slice_from-append : (front back : List ℕ) → slice_from (front ++ back) (length front) ≡ ok back
slice_from-append front back =
    let fits : ltb (length (front ++ back)) (length front) ≡ false =
      le→not-ltb _ _ (omega (arith, length-append front back)) in
    rw (fits, drop-append front back) refl

split_words :
    (words : List ℕ) (i v : ℕ)
    → get_elem? words i ≡ some v
    → (front back : List ℕ) × (words_bytes words ≡ front ++ (word v ++ back))
      × (length front ≡ i * 4)
split_words [] i v e = cc
split_words (w ∷ words) zero v e =
    let same : w ≡ v = cc in ([], words_bytes words, rw same refl, omega arith)
split_words (w ∷ words) (suc i) v e =
    let (front, back, split, size) = split_words words i v e in
    (
      word w ++ front,
      back,
      ap (λ bytes. word w ++ bytes) split ∙ sym (append_assoc (word w) front (word v ++ back)),
      omega (arith, size, length-append (word w) front, length-to_be_bytes 4 w),
    )

-- A word of the header.
pub u32_at-words_bytes :
    (words rest : List ℕ) (i v : ℕ)
    → get_elem? words i ≡ some v
    → v < 2 ^ 32
    → u32_at (record { buf = words_bytes words ++ rest }) i ≡ ok v
unfolding u32_at
u32_at-words_bytes words rest i v e fits =
    let (front, back, split, size) = split_words words i v e in
    let regroup : words_bytes words ++ rest ≡ front ++ (word v ++ (back ++ rest)) =
      ap (λ bytes. bytes ++ rest) split
      ∙ (append_assoc front (word v ++ back) rest
          ∙ ap (λ bytes. front ++ bytes) (append_assoc (word v) back rest)) in
    let upto : i * 4 + 4 ≡ length front + length (word v) =
      omega (arith, size, length-to_be_bytes 4 v) in
    let sliced : slice_between (words_bytes words ++ rest) (i * 4) (i * 4 + 4) ≡ ok (word v) =
      ap (λ bytes. slice_between bytes (i * 4) (i * 4 + 4)) regroup
      ∙ (ap (λ n. slice_between (front ++ (word v ++ (back ++ rest))) n (i * 4 + 4)) (sym size)
          ∙ (ap (slice_between (front ++ (word v ++ (back ++ rest))) (length front)) upto
              ∙ slice_between-append front (word v) (back ++ rest))) in
    ap (λ run. run >>= λ bytes. ok (from_be_bytes bytes)) sliced
    ∙ ap ok (from_be_bytes-to_be_bytes 4 v fits)

module _ (l : Layout) (fits : blob_size l < 2 ^ 32) where
  body : List ℕ
  body = l.reservations ++ (l.block ++ l.strings)

  length-header : length (words_bytes (header l)) ≡ 40
  length-header = omega (arith, words_length (header l))
    where
      words_length : (words : List ℕ) → length (words_bytes words) ≡ length words * 4
      words_length [] = omega arith
      words_length (w ∷ words) = omega (
        arith,
        words_length words,
        length-to_be_bytes 4 w,
        length-append (word w) (words_bytes words),
      )

  abbrev of_blob : DeviceTree
  of_blob = record { buf = blob l }

  pub tokens-blob : tokens of_blob ≡ ok l.block
  unfolding tokens
  tokens-blob =
      let head = words_bytes (header l) in
      let front = head ++ l.reservations in
      let start =
        u32_at-words_bytes (header l) (l.reservations ++ (l.block ++ l.strings)) 2 (struct_start l)
          refl (omega arith) in
      let size =
        u32_at-words_bytes (header l) (l.reservations ++ (l.block ++ l.strings)) 9 (length l.block)
          refl (omega arith) in
      let no_overflow : ltb usize_max (struct_start l + length l.block) ≡ false =
        le→not-ltb _ _ (omega arith) in
      let at : struct_start l ≡ length front =
        omega (arith, length-append head l.reservations, length-header) in
      let regroup : blob l ≡ front ++ (l.block ++ l.strings) =
        sym (append_assoc head l.reservations (l.block ++ l.strings)) in
      let sliced : slice_between (blob l) (struct_start l) (struct_start l + length l.block)
          ≡ ok l.block =
        ap (λ n. slice_between (blob l) n (n + length l.block)) at
        ∙ (ap (λ bytes. slice_between bytes (length front) (length front + length l.block)) regroup
            ∙ slice_between-append front l.block l.strings) in
      rw (start, size, no_overflow) sliced

  -- A string of the strings block, at the offset from its start.
  pub string_at-blob :
      (offset : ℕ)
      → offset ≤ length l.strings
      → string_at of_blob offset ≡ ok (next_str (drop offset l.strings))
  unfolding string_at
  string_at-blob offset inside =
      let head = words_bytes (header l) in
      let front = head ++ (l.reservations ++ l.block) in
      let start =
        u32_at-words_bytes (header l) (l.reservations ++ (l.block ++ l.strings)) 3 (strings_start l)
          refl (omega arith) in
      let no_overflow : ltb usize_max (strings_start l + offset) ≡ false =
        le→not-ltb _ _ (omega arith) in
      let size : strings_start l ≡ length front = omega (
        arith,
        length-append head (l.reservations ++ l.block),
        length-append l.reservations l.block,
        length-header,
      ) in
      let regroup : blob l ≡ front ++ l.strings =
        ap (λ bytes. head ++ bytes) (sym (append_assoc l.reservations l.block l.strings))
        ∙ sym (append_assoc head (l.reservations ++ l.block) l.strings) in
      let within : ltb (length (blob l)) (strings_start l + offset) ≡ false =
        le→not-ltb _ _
          (omega (arith, ap (length {A = ℕ}) regroup, length-append front l.strings, size)) in
      let behind : drop (strings_start l + offset) (blob l) ≡ drop offset l.strings =
        ap (λ bytes. drop (strings_start l + offset) bytes) regroup
        ∙ (ap (λ n. drop (n + offset) (front ++ l.strings)) size ∙ drop_past front offset) in
      rw (start, no_overflow, within) (ap (λ bytes. ok (next_str bytes)) behind)
    where
      drop_past :
          (front : List ℕ) (n : ℕ) → drop (length front + n) (front ++ l.strings) ≡ drop n l.strings
      drop_past [] n = ap (λ m. drop m l.strings) (zero_plus n)
        where
          zero_plus : (m : ℕ) → 0 + m ≡ m
          zero_plus m = omega arith
      drop_past (x ∷ front) n =
          ap (λ m. drop m (x ∷ (front ++ l.strings))) (suc_plus (length front) n)
          ∙ drop_past front n
        where
          suc_plus : (m n : ℕ) → suc m + n ≡ suc (m + n)
          suc_plus m n = omega arith

  pub memory_reservations-blob :
      memory_reservations of_blob ≡ ok (l.reservations ++ (l.block ++ l.strings))
  unfolding memory_reservations
  memory_reservations-blob =
      let head = words_bytes (header l) in
      let rest = l.reservations ++ (l.block ++ l.strings) in
      let start = u32_at-words_bytes (header l) rest 4 40 refl (omega arith) in
      ap (λ run. run >>= λ n. slice_from (blob l) n) start
      ∙ (ap (slice_from (blob l)) (sym length-header) ∙ slice_from-append head rest)

  length-blob : length (blob l) ≡ blob_size l
  length-blob = omega (
    arith,
    length-append (words_bytes (header l)) (l.reservations ++ (l.block ++ l.strings)),
    length-append l.reservations (l.block ++ l.strings),
    length-append l.block l.strings,
    length-header,
  )

  front_word : (v : ℕ) (rest : List ℕ) → v < 2 ^ 32 → from_be_bytes (take 4 (word v ++ rest)) ≡ v
  front_word v rest h =
      ap from_be_bytes (
        ap (λ n. take n (word v ++ rest)) (sym (length-to_be_bytes 4 v))
        ∙ take-append (word v) rest)
      ∙ from_be_bytes-to_be_bytes 4 v h

  -- The pointer to a blob gives the blob, whatever lies behind it in memory.
  pub from_ptr-blob : (memory : List ℕ) → from_ptr (blob l ++ memory) ≡ some of_blob
  unfolding from_ptr
  from_ptr-blob memory =
      let later = words_bytes (
        struct_start l
        ∷ strings_start l
        ∷ 40
        ∷ 17
        ∷ 16
        ∷ l.boot_cpu
        ∷ length l.strings
        ∷ length l.block
        ∷ []) in
      let rest = l.reservations ++ (l.block ++ l.strings) in
      let second = (word (blob_size l) ++ (later ++ rest)) ++ memory in
      let behind : blob l ++ memory ≡ word magic ++ second =
        ap (λ bytes. bytes ++ memory)
          (append_assoc (word magic) (word (blob_size l) ++ later) rest
            ∙ ap (λ bytes. word magic ++ bytes) (append_assoc (word (blob_size l)) later rest))
        ∙ append_assoc (word magic) (word (blob_size l) ++ (later ++ rest)) memory in
      let is_magic : from_be_bytes (take 4 (blob l ++ memory)) ≡ magic =
        ap (λ bytes. from_be_bytes (take 4 bytes)) behind ∙ front_word magic second (omega arith) in
      let dropped : drop 4 (blob l ++ memory) ≡ word (blob_size l) ++ ((later ++ rest) ++ memory) =
        ap (drop 4) behind
        ∙ (ap (λ n. drop n (word magic ++ second)) (sym (length-to_be_bytes 4 magic))
            ∙ (drop-append (word magic) second
                ∙ append_assoc (word (blob_size l)) (later ++ rest) memory)) in
      let size : from_be_bytes (take 4 (drop 4 (blob l ++ memory))) ≡ length (blob l) =
        ap (λ bytes. from_be_bytes (take 4 bytes)) dropped
        ∙ (front_word (blob_size l) ((later ++ rest) ++ memory) fits ∙ sym length-blob) in
      rw (is_magic, size)
        (ap (λ bytes. some (record { buf = bytes })) (take-append (blob l) memory))
