-- ===== src/Idx/Datatype.antt =====
-- src/idx/dataset/types.rs: the type of the values of a dataset.
use hidefix.Base.{ℕ}

pub data Datatype : Type 0 where
  uint : ℕ → Datatype
  int : ℕ → Datatype
  float : ℕ → Datatype
  custom : ℕ → Datatype

-- `Datatype::dsize`
unfoldable pub dsize : Datatype → ℕ
dsize (uint sz) = sz
dsize (int sz) = sz
dsize (float sz) = sz
dsize (custom sz) = sz
