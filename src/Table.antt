-- ===== src/Table.antt =====
-- A table with a numeric primary key, as SQLAlchemy's session shows it: its rows in key order.
pub mod Laws
use iam_sentinel_ese.Prelude.{
  ℕ, ◌+◌, max, Option, none, some, List, [], ◌∷◌, ◌==◌, nat_eq, if◌then◌else◌,
}

module _ {A : Type 0} (key : A → ℕ) where
  -- `session.get(Row, i)`
  abbrev pub get : ℕ → List A → Option A
  get i [] = none
  get i (r ∷ rs) = if key r == i then some r else get i rs

  -- an assignment to columns of the row with key `i`
  abbrev pub update : ℕ → (A → A) → List A → List A
  update i f [] = []
  update i f (r ∷ rs) = (if key r == i then f r else r) ∷ update i f rs

  -- The primary key of a new row: one more than the largest.
  abbrev pub fresh : List A → ℕ
  fresh [] = 1
  fresh (r ∷ rs) = max (key r + 1) (fresh rs)
