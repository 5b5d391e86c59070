-- ===== src/Base64/Chars.antt =====
-- The two tables are inverse to one another.
use mshell.Prelude.{ℕ, ◌<◌, ◌≡◌, refl, none, some, arith}
use mshell.Base64.{reverse_table, table64}

pub reverse_table-table64 : (v : ℕ) → v < 64 → reverse_table (table64 v) ≡ some v
unfolding reverse_table table64
reverse_table-table64 v h = ground arith

pub reverse_table-lt : (c v : ℕ) → reverse_table c ≡ some v → v < 64
unfolding reverse_table
reverse_table-lt c v h = ground arith

pub reverse_table-padding : reverse_table b'=' ≡ none
unfolding reverse_table
reverse_table-padding = refl
