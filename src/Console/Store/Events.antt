-- ===== src/Console/Store/Events.antt =====
-- console/store.py: the events and their cursor as a journal that the calls write.
use ai_security_gateway.Base.{
  zero, suc, Option, length, ◌==◌, if◌then◌else◌, ℕ, String, ◌≡◌, refl, ◌∙◌, sym, ap, some, List,
  [], ◌∷◌, ◌++◌, arith,
}
use text.Mathlib.TextPositions.{eq_refl}
use ai_security_gateway.Base.Dict.{get-put}
use ai_security_gateway.Console.Store.{
  EventRow, Database, get_setting, set_setting, insert_event, add_event, insert_events,
  ingest_events, replace_payload, update_event,
}

-- The payloads, the first event first.
abbrev pub payloads : List EventRow → List String
payloads [] = []
payloads (r ∷ rs) = payloads rs ++ r.payload ∷ []

append_assoc : (xs ys zs : List String) → (xs ++ ys) ++ zs ≡ xs ++ (ys ++ zs)
append_assoc [] ys zs = refl
append_assoc (x ∷ xs) ys zs = ap (λ l. x ∷ l) (append_assoc xs ys zs)

append-nil : (xs : List String) → xs ++ [] ≡ xs
append-nil [] = refl
append-nil (x ∷ xs) = ap (λ l. x ∷ l) (append-nil xs)

payloads-insert_events :
    (ps : List String) (db : Database)
    → payloads (insert_events ps db).events ≡ payloads db.events ++ ps
unfolding insert_events insert_event
payloads-insert_events [] db = sym (append-nil (payloads db.events))
payloads-insert_events (p ∷ ps) db =
    payloads-insert_events ps (insert_event p db) ∙ append_assoc (payloads db.events) (p ∷ []) ps

-- The calls that write events.
pub data Write : Type 0 where
  adds : String → Write
  ingests : List String → String → Write
  updates : ℕ → String → Write

unfoldable pub write : Write → Database → Database
write (adds p) db = (add_event p db).1
write (ingests ps cursor) db = ingest_events ps cursor db
write (updates id p) db = update_event id p db

unfoldable pub writes : List Write → Database → Database
writes [] db = db
writes (w ∷ ws) db = writes ws (write w db)

-- What the events are to their readers: the payloads in the order of their numbers, which start at
-- one, and the cursor of the spool that was read.
pub record Journal : Type 0 where
  pub entries : List String
  pub cursor : Option String

-- The entry of a number, in its place.
unfoldable pub replace_at : ℕ → String → List String → List String
replace_at zero p xs = xs
replace_at (suc n) p [] = []
replace_at (suc zero) p (x ∷ xs) = p ∷ xs
replace_at (suc (suc n)) p (x ∷ xs) = x ∷ replace_at (suc n) p xs

abbrev pub journaled : Write → Journal → Journal
journaled (adds p) j = record j { entries = j.entries ++ p ∷ [] }
journaled (ingests ps cursor) j = record { entries = j.entries ++ ps; cursor = some cursor }
journaled (updates id p) j = record j { entries = replace_at id p j.entries }

unfoldable pub journal : List Write → Journal → Journal
journal [] j = j
journal (w ∷ ws) j = journal ws (journaled w j)

abbrev pub view : Database → Journal
view db = record { entries = payloads db.events; cursor = get_setting "event_spool_cursor" db }

-- The numbers of the events fall by one from the last event to the first, which has the number one.
abbrev pub Numbered : ℕ → List EventRow → Type 0
Numbered n [] = n ≡ 1
Numbered n (r ∷ rs) = (n ≡ suc r.id) × Numbered r.id rs

abbrev pub IsNumbered : Database → Type 0
IsNumbered db = Numbered db.next_event db.events

length-snoc : (xs : List String) (y : String) → length (xs ++ y ∷ []) ≡ suc (length xs)
length-snoc [] y = refl
length-snoc (x ∷ xs) y = ap suc (length-snoc xs y)

Numbered-length : (n : ℕ) (rs : List EventRow) → Numbered n rs → n ≡ suc (length (payloads rs))
Numbered-length n [] h = h
Numbered-length n (r ∷ rs) (e, h) =
    ground (arith, Numbered-length r.id rs h, length-snoc (payloads rs) r.payload)

replace_at-snoc :
    (id : ℕ) (p : String) (xs : List String) (y : String)
    → replace_at id p (xs ++ y ∷ [])
      ≡ replace_at id p xs ++ (if id == suc (length xs) then p else y) ∷ []
unfolding replace_at
replace_at-snoc zero p xs y = ground arith
replace_at-snoc (suc zero) p [] y = ground arith
replace_at-snoc (suc (suc n)) p [] y = ground arith
replace_at-snoc (suc zero) p (x ∷ xs) y = ground arith
replace_at-snoc (suc (suc n)) p (x ∷ xs) y = ground (arith, replace_at-snoc (suc n) p xs y)

replace_payload-Numbered :
    (id : ℕ) (p : String) (n : ℕ) (rs : List EventRow)
    → Numbered n rs
    → Numbered n (replace_payload id p rs)
unfolding replace_payload
replace_payload-Numbered id p n [] h = h
replace_payload-Numbered id p n (r ∷ rs) (l, h) =
    ground (arith, replace_payload-Numbered id p r.id rs h)

replace_at-nil : (id : ℕ) (p : String) → replace_at id p [] ≡ []
unfolding replace_at
replace_at-nil zero p = refl
replace_at-nil (suc zero) p = refl
replace_at-nil (suc (suc n)) p = refl

payloads-replace_payload :
    (id : ℕ) (p : String) (n : ℕ) (rs : List EventRow)
    → Numbered n rs
    → payloads (replace_payload id p rs) ≡ replace_at id p (payloads rs)
unfolding replace_payload
payloads-replace_payload id p n [] h = sym (replace_at-nil id p)
payloads-replace_payload id p n (r ∷ rs) (e, h) = ground (
  arith,
  payloads-replace_payload id p r.id rs h,
  replace_at-snoc id p (payloads rs) r.payload,
  Numbered-length r.id rs h,
)

insert_events-IsNumbered :
    (ps : List String) (db : Database) → IsNumbered db → IsNumbered (insert_events ps db)
unfolding insert_events insert_event
insert_events-IsNumbered [] db h = h
insert_events-IsNumbered (p ∷ ps) db h = insert_events-IsNumbered ps (insert_event p db) (refl, h)

insert_events-settings :
    (ps : List String) (db : Database) → (insert_events ps db).settings ≡ db.settings
unfolding insert_events insert_event
insert_events-settings [] db = refl
insert_events-settings (p ∷ ps) db = insert_events-settings ps (insert_event p db)

ingest_events-cursor :
    (ps : List String) (cursor : String) (db : Database)
    → get_setting "event_spool_cursor" (ingest_events ps cursor db) ≡ some cursor
unfolding ingest_events set_setting get_setting
ingest_events-cursor ps cursor db = ground (
  arith,
  get-put "event_spool_cursor" "event_spool_cursor" cursor (insert_events ps db).settings,
  eq_refl "event_spool_cursor",
)

-- A call writes the journal, and keeps the numbers.
write-view :
    (w : Write) (db : Database)
    → IsNumbered db
    → (view (write w db) ≡ journaled w (view db)) × IsNumbered (write w db)
unfolding write add_event ingest_events set_setting update_event insert_event get_setting
write-view (adds p) db h = (refl, (refl, h))
write-view (ingests ps cursor) db h = (
  λ i. record {
    entries = payloads-insert_events ps db i;
    cursor = ingest_events-cursor ps cursor db i;
  },
  insert_events-IsNumbered ps db h,
)
write-view (updates id p) db h = (
  λ i. record {
    entries = payloads-replace_payload id p db.next_event db.events h i;
    cursor = get_setting "event_spool_cursor" db;
  },
  replace_payload-Numbered id p db.next_event db.events h,
)

-- Any calls that add, ingest and update events, on a database whose events are numbered from one
-- without a gap, leave the journal that the calls write: an added event comes last, ingested ones come
-- last in their order with their cursor, and an update replaces the entry of its number and no other.
-- The numbers stay without a gap.
pub writes-journal :
    (ws : List Write) (db : Database)
    → IsNumbered db
    → (view (writes ws db) ≡ journal ws (view db)) × IsNumbered (writes ws db)
unfolding writes journal
writes-journal [] db h = (refl, h)
writes-journal (w ∷ ws) db h =
    let (same, numbered) = write-view w db h in
    let (rest, still) = writes-journal ws (write w db) numbered in
    (rest ∙ ap (journal ws) same, still)
