-- ===== src/Inspection/Json.antt =====
-- The values that `json.loads` gives, and Python's unbounded integers. A float is kept by its text.
use ai_security_gateway.Base.{
  ℕ, suc, ◌+◌, ◌-◌, String, Bool, true, false, Option, none, some, leb, ltb, str_eq, if◌then◌else◌,
}

pub data ℤ : Type 0 where
  pos negsuc : ℕ → ℤ

infixl 60 ◌+ℤ◌
-- The sum with a number that is not negative.
unfoldable pub ◌+ℤ◌ : ℤ → ℕ → ℤ
pos n +ℤ k = pos (n + k)
negsuc n +ℤ k = if ltb n k then pos (k - suc n) else negsuc (n - k)

unfoldable pub lebℤ : ℤ → ℤ → Bool
lebℤ (pos m) (pos n) = leb m n
lebℤ (pos m) (negsuc n) = false
lebℤ (negsuc m) (pos n) = true
lebℤ (negsuc m) (negsuc n) = leb n m

mutual
  pub data Json : Type 0 where
    null : Json
    bool : Bool → Json
    int : ℤ → Json
    float : String → Json
    str : String → Json
    arr : Items → Json
    obj : Fields → Json

  pub data Items : Type 0 where
    nil : Items
    cons : Json → Items → Items

  pub data Fields : Type 0 where
    end : Fields
    field : String → Json → Fields → Fields

-- `value.get(key)`
unfoldable pub member : String → Fields → Option Json
member k end = none
member k (field j v fs) = if str_eq j k then some v else member k fs
