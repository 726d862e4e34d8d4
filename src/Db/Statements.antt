-- ===== src/Db/Statements.antt =====
-- An SQL statement `UPDATE … SET … WHERE … RETURNING *` on one table, as backend/src/db runs it: the
-- rows of the table that the guard holds for are changed, and their new values are returned.
use overup.Prelude.{Bool, Option, none, some, List, [], ◌∷◌, map, if◌then◌else◌, filter}

pub record Update (R : Type 0) : Type 0 where
  pub guard : R → Bool
  pub change : R → R

module _ {R : Type 0} where
  -- What becomes of one row.
  abbrev pub apply : Update R → R → R
  apply u r = if u.guard r then u.change r else r

  -- The table after the statement, and the rows that it returns.
  abbrev pub execute : Update R → List R → List R
  execute u rows = map (apply u) rows

  abbrev pub returning : Update R → List R → List R
  returning u rows = map u.change (filter u.guard rows)

  -- `fetch_optional`: the first row that is returned.
  abbrev pub first : List R → Option R
  first [] = none
  first (r ∷ rows) = some r
