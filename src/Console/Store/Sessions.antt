-- ===== src/Console/Store/Sessions.antt =====
-- console/store.py: the sessions and the administrator's password.
use ai_security_gateway.Base.{
  Option, ℕ, ◌+◌, ◌*◌, String, ◌≡◌, refl, ◌⊎◌, inl, inr, Bool, true, false, none, some, List, [],
  ◌∷◌, arith, ltb, is_set, Bool-cases, if◌then◌else◌,
}
use text.Mathlib.TextPositions.{eq_refl}
use ai_security_gateway.Base.Result.{ok}
use ai_security_gateway.Console.Store.{
  principal_or_admin, Hashes, SessionRow, Database, second, check_password, delete_expired,
  has_session, min, create_session, find_session, principal, change_password, audit,
}

-- What a change of the password does: with a wrong current password nothing, and otherwise the new
-- password is the account's, it counts as changed, and no token has a session.
abbrev pub Changes : Hashes → String → String → Database → Bool × Database → Type 0
Changes h current new db (done, db') =
    ((check_password h current db ≡ false) × (done ≡ false) × (db' ≡ db))
    ⊎ ((check_password h current db ≡ true)
        × (done ≡ true)
        × (check_password h new db' ≡ true)
        × (db'.account.changed ≡ true)
        × ((token : String) (t : ℕ) → principal h token t db' ≡ none))

no_sessions :
    (h : Hashes) (token : String) (t : ℕ) (db : Database)
    → db.sessions ≡ []
    → principal h token t db ≡ none
unfolding principal find_session
no_sessions h token t db e = ground arith

-- `change_password` on both branches.
pub change_password-Changes :
    (h : Hashes) (current new salt : String) (now : ℕ) (db : Database)
    → Changes h current new db (change_password h current new salt now db)
unfolding change_password audit check_password
change_password-Changes h current new salt now db =
    elim (Bool-cases (check_password h current db)) [
      | inr f ↦ inl (f, ground arith, ground arith)
      | inl t ↦ inr (
        t,
        ground arith,
        ground (arith, eq_refl (h.password_hash new salt)),
        ground arith,
        λ token u.
            no_sessions h token u (change_password h current new salt now db).1 (ground arith),
      )
    ]

find_session-none :
    (d : String) (t : ℕ) (rs : List SessionRow)
    → has_session d rs ≡ false
    → find_session d t rs ≡ none
unfolding has_session find_session
find_session-none d t [] h = refl
find_session-none d t (r ∷ rs) h = ground (arith, find_session-none d t rs)

-- A session that `create_session` opened is its principal's up to its lifetime, eight hours at most,
-- and nobody's from then on. Its principal is the given one, or the administrator where none or an
-- empty one is given; neither its text nor the token is empty.
pub create_session-principal :
    (h : Hashes) (o : Option String) (ttl : ℕ) (token : String) (now later : ℕ) (db db' : Database)
    → create_session h o ttl token now later db ≡ (ok token, db')
    → is_set token ≡ true
    → is_set (principal_or_admin o) ≡ true
    → (t : ℕ)
    → principal h token t db'
      ≡ (if ltb t (later + min ttl 28800 * second) then some (principal_or_admin o) else none)
unfolding create_session principal find_session
create_session-principal h o ttl token now later db db' e s q t =
    elim (Bool-cases (has_session (h.sha256_hex token) (delete_expired now db.sessions))) [
      | inl f ↦ absurd (ground arith)
      | inr f ↦ ground (
        arith,
        eq_refl (h.sha256_hex token),
        find_session-none (h.sha256_hex token) t (delete_expired now db.sessions) f,
      )
    ]
