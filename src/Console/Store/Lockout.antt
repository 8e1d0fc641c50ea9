-- ===== src/Console/Store/Lockout.antt =====
-- console/store.py: the lock after failed sign-ins.
use ai_security_gateway.Base.{
  ℕ, suc, ◌+◌, ◌*◌, ◌≤◌, ◌<◌, String, ◌≡◌, refl, true, some, List, [], ◌∷◌, arith, length,
}
use text.Mathlib.TextPositions.{eq_refl}
use ai_security_gateway.Base.Dict
use ai_security_gateway.Base.Dict.{Dict, get-put}
use ai_security_gateway.Console.Store.{
  Attempts, Database, second, login_failed, login_locked, failures_with,
}

-- Failed sign-ins in a row, each with its two readings of the clock.
unfoldable pub fails : String → List (ℕ × ℕ) → Database → Database
fails identity [] db = db
fails identity ((now, later) ∷ ts) db = fails identity ts (login_failed identity now later db)

-- Each sign-in comes before the time that the one before it set.
abbrev pub InWindow : ℕ → List (ℕ × ℕ) → Type 0
InWindow u [] = Unit
InWindow u ((now, later) ∷ ts) = (now < u) × InWindow (later + 60 * second) ts

-- The time that the last one sets.
abbrev pub last_until : ℕ → List (ℕ × ℕ) → ℕ
last_until u [] = u
last_until u ((now, later) ∷ ts) = last_until (later + 60 * second) ts

login_failed-get :
    (identity : String) (now later : ℕ) (db : Database)
    → Dict.get identity (login_failed identity now later db).attempts
      ≡ some (record {
        failures = failures_with (Dict.get identity db.attempts) now;
        until = later + 60 * second;
      })
unfolding login_failed
login_failed-get identity now later db = ground (
  arith,
  eq_refl identity,
  get-put identity identity
      (record {
        failures = failures_with (Dict.get identity db.attempts) now;
        until = later + 60 * second;
      })
      db.attempts,
)

fails-count :
    (identity : String) (ts : List (ℕ × ℕ)) (db : Database) (f u : ℕ)
    → Dict.get identity db.attempts ≡ some (record { failures = f; until = u })
    → InWindow u ts
    → (a : Attempts) × (Dict.get identity (fails identity ts db).attempts ≡ some a)
      × (a.failures ≡ f + length ts)
      × (a.until ≡ last_until u ts)
unfolding fails
fails-count identity [] db f u e w = (record { failures = f; until = u }, e, omega arith, refl)
fails-count identity ((now, later) ∷ ts) db f u e (w, ws) =
    let (a, g, n, v) =
      fails-count identity ts (login_failed identity now later db) (suc f) (later + 60 * second)
        (ground (arith, login_failed-get identity now later db, e, w)) ws in
    (a, g, omega (arith, n), v)

-- After five failed sign-ins of an identity or more, each before the time that the one before it set,
-- the identity is locked until the time that the last one set, a minute after it.
pub login_locked-fails :
    (identity : String) (now later : ℕ) (ts : List (ℕ × ℕ)) (db : Database) (t : ℕ)
    → InWindow (later + 60 * second) ts
    → 4 ≤ length ts
    → t < last_until (later + 60 * second) ts
    → login_locked identity t (fails identity ((now, later) ∷ ts) db) ≡ true
unfolding login_locked fails
login_locked-fails identity now later ts db t w n l =
    let db' = login_failed identity now later db in
    let k = failures_with (Dict.get identity db.attempts) now in
    let (a, g, f, v) =
      fails-count identity ts db' k (later + 60 * second) (login_failed-get identity now later db)
        w in
    let positive : 1 ≤ k = ground arith in ground arith
