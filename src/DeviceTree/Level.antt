-- ===== src/DeviceTree/Level.antt =====
-- crates/devicetree/src/node.rs and lib.rs: a node as the code passes it around, and the levels of nodes, which are `u8`s
-- with checked arithmetic.
use novos.Prelude.{ℕ, suc, ◌+◌, ◌-◌, ◌<◌, ◌≡◌, List, Run, ok, panic, ltb, if◌then◌else◌, arith}
use novos.DeviceTree.Tokens.{TokenIter}
use novos.DeviceTree.Blob.{DeviceTree}

-- `children` starts behind the begin node token.
pub record Node : Type 0 where
  pub tree : DeviceTree
  pub name : List ℕ
  pub level : ℕ
  pub children : TokenIter

abbrev pub add_u8 : ℕ → ℕ → Run ℕ
add_u8 a b = if ltb 255 (a + b) then panic else ok (a + b)

abbrev pub sub_u8 : ℕ → ℕ → Run ℕ
sub_u8 a b = if ltb a b then panic else ok (a - b)

pub add_u8-one : (n : ℕ) → n < 255 → add_u8 n 1 ≡ ok (suc n)
add_u8-one n h = ground arith

pub sub_u8-one : (n : ℕ) → sub_u8 (suc n) 1 ≡ ok n
sub_u8-one n = ground arith
