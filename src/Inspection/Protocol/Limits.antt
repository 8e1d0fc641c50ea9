-- ===== src/Inspection/Protocol/Limits.antt =====
-- inspection/protocol.py: the size and the depth of a value that `strict_json` lets pass.
use ai_security_gateway.Base.{
  ℕ, suc, ◌+◌, ◌≤◌, ◌≡◌, inl, inr, String, Bool, arith, ltb, if◌then◌else◌,
}
use ai_security_gateway.Base.Result.{ok, Result-cases}
use ai_security_gateway.Inspection.Json.{
  Json, null, bool, int, float, str, arr, obj, Items, nil, cons, Fields, end, field,
}
use ai_security_gateway.Inspection.Protocol.{enter, check_float, check, check_items, check_fields}

abbrev max : ℕ → ℕ → ℕ
max a b = if ltb a b then b else a

-- The nodes of a value, and the depth of its deepest one.
unfoldable mutual
  pub size : Json → ℕ
  size (obj fs) = suc (size_fields fs)
  size (arr xs) = suc (size_items xs)
  size _ = 1

  pub size_items : Items → ℕ
  size_items nil = 0
  size_items (cons x xs) = size x + size_items xs

  pub size_fields : Fields → ℕ
  size_fields end = 0
  size_fields (field k x fs) = size x + size_fields fs

unfoldable mutual
  pub depth : Json → ℕ
  depth (obj fs) = depth_fields fs
  depth (arr xs) = depth_items xs
  depth _ = 0

  pub depth_items : Items → ℕ
  depth_items nil = 0
  depth_items (cons x xs) = max (suc (depth x)) (depth_items xs)

  pub depth_fields : Fields → ℕ
  depth_fields end = 0
  depth_fields (field k x fs) = max (suc (depth x)) (depth_fields fs)

enter-ok :
    (max_depth max_nodes d n m : ℕ)
    → enter max_depth max_nodes d n ≡ ok m
    → (m ≡ suc n) × (m ≤ max_nodes) × (d ≤ max_depth)
unfolding enter
enter-ok max_depth max_nodes d n m h = ground arith

module _ (is_finite : String → Bool) (max_depth max_nodes : ℕ) where
  mutual
    unfolding check check_items check_fields check_float size size_items size_fields depth
        depth_items depth_fields

    check-fits :
        (v : Json) (d n m : ℕ)
        → check is_finite max_depth max_nodes v d n ≡ ok m
        → (m ≡ n + size v) × (m ≤ max_nodes) × (d + depth v ≤ max_depth)
    check-fits null d n m h = ground (arith, enter-ok max_depth max_nodes d n m h)
    check-fits (bool b) d n m h = ground (arith, enter-ok max_depth max_nodes d n m h)
    check-fits (int i) d n m h = ground (arith, enter-ok max_depth max_nodes d n m h)
    check-fits (str t) d n m h = ground (arith, enter-ok max_depth max_nodes d n m h)
    check-fits (float f) d n m h = elim (Result-cases (enter max_depth max_nodes d n)) [
      | inl (k, e) ↦ ground (arith, enter-ok max_depth max_nodes d n k e)
      | inr (x, e) ↦ absurd (ground arith)
    ]
    check-fits (arr xs) d n m h = elim (Result-cases (enter max_depth max_nodes d n)) [
      | inl (k, e) ↦
          let (f, l, b) = enter-ok max_depth max_nodes d n k e in
          ground (arith, items-fit xs d k m b l)
      | inr (x, e) ↦ absurd (ground arith)
    ]
    check-fits (obj fs) d n m h = elim (Result-cases (enter max_depth max_nodes d n)) [
      | inl (k, e) ↦
          let (f, l, b) = enter-ok max_depth max_nodes d n k e in
          ground (arith, fields-fit fs d k m b l)
      | inr (x, e) ↦ absurd (ground arith)
    ]

    items-fit :
        (xs : Items) (d n m : ℕ)
        → d ≤ max_depth
        → n ≤ max_nodes
        → check_items is_finite max_depth max_nodes xs d n ≡ ok m
        → (m ≡ n + size_items xs) × (m ≤ max_nodes) × (d + depth_items xs ≤ max_depth)
    items-fit nil d n m b l h = ground arith
    items-fit (cons x xs) d n m b l h =
        elim (Result-cases (check is_finite max_depth max_nodes x (suc d) n)) [
          | inl (k, e) ↦
              let (f, l', b') = check-fits x (suc d) n k e in
              ground (arith, items-fit xs d k m b l')
          | inr (r, e) ↦ absurd (ground arith)
        ]

    fields-fit :
        (fs : Fields) (d n m : ℕ)
        → d ≤ max_depth
        → n ≤ max_nodes
        → check_fields is_finite max_depth max_nodes fs d n ≡ ok m
        → (m ≡ n + size_fields fs) × (m ≤ max_nodes) × (d + depth_fields fs ≤ max_depth)
    fields-fit end d n m b l h = ground arith
    fields-fit (field k x fs) d n m b l h =
        elim (Result-cases (check is_finite max_depth max_nodes x (suc d) n)) [
          | inl (k', e) ↦
              let (f, l', b') = check-fits x (suc d) n k' e in
              ground (arith, fields-fit fs d k' m b l')
          | inr (r, e) ↦ absurd (ground arith)
        ]

  -- A decoded value that passes the check of `strict_json` has at most as many nodes and as much depth
  -- as the limits allow, and the check counts its nodes exactly.
  pub check-limits :
      (v : Json) (m : ℕ)
      → check is_finite max_depth max_nodes v 0 0 ≡ ok m
      → (m ≡ size v) × (size v ≤ max_nodes) × (depth v ≤ max_depth)
  check-limits v m h = ground (arith, check-fits v 0 0 m h)
