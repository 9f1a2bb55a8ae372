-- ===== src/Api/Projects/Race.antt =====
-- api/projects.go, Create: several creations of one user at the same time, in steps between which
-- other requests run. The advisory lock of the user, which Postgres gives to one transaction at a time
-- and takes back at its end, stands before the count.
use airelay.Base.{
  ℕ, ◌+◌, ◌≤◌, ◌<◌, ◌≡◌, ◌⊎◌, inl, inr, refl, sym, ap, Bool, false, ◌&&◌, ◌||◌, not, Option, none,
  some, List, [], ◌∷◌, ◌++◌, Bytes, bytes_eq, ◌==◌, ==_iff, any, count_where, count_where-append,
  if◌then◌else◌, Bool-cases, arith,
}
use airelay.Time.{Time}
use airelay.Uuid.{Uuid}
use airelay.Models.{Project}
use airelay.Api.Db.{Db, is_none}
use airelay.Api.Projects.{active_projects, insert_project}

-- Where a creation stands: before its lock, behind it, and behind a count below the limit.
pub data Stage : Type 0 where
  waiting locked counted : Stage

pub record Creations : Type 0 where
  pub db : Db
  pub stage : ℕ → Stage
  -- the transaction that has the lock
  pub holder : Option ℕ

abbrev pub at : ℕ → Stage → (ℕ → Stage) → ℕ → Stage
at i v stage k = if k == i then v else stage k

-- The end of a transaction, with the tables that it leaves.
abbrev pub ended : ℕ → Db → Creations → Creations
ended i db s = record { db = db; stage = at i waiting s.stage; holder = none }

abbrev pub locks_at : ℕ → Creations → Creations
locks_at i s = record s { stage = at i locked s.stage; holder = some i }

abbrev pub counts_at : ℕ → Creations → Creations
counts_at i s = record s { stage = at i counted s.stage }

-- The steps of Create for a user, with a limit above 0. A row that is inserted is seen by others from
-- the commit on, so its INSERT and the commit are one step.
pub data Step (user : Uuid) (limit : ℕ) : Creations → Creations → Type 0 where
  locks :
      (s : Creations) (i : ℕ)
      → s.stage i ≡ waiting
      → s.holder ≡ none
      → Step user limit s (locks_at i s)
  -- count < lim.MaxProjects
  counts :
      (s : Creations) (i : ℕ)
      → s.stage i ≡ locked
      → active_projects user s.db < limit
      → Step user limit s (counts_at i s)
  -- count >= lim.MaxProjects, an error, or a client that leaves: a rollback
  aborts : (s : Creations) (i : ℕ) → s.holder ≡ some i → Step user limit s (ended i s.db s)
  commits :
      (s : Creations) (i : ℕ) (name slug : Bytes) (id : Uuid) (now : Time) (db : Db)
      → s.stage i ≡ counted
      → insert_project user name slug id now s.db ≡ some ((id, now), db)
      → Step user limit s (ended i db s)
  -- any other request, of whichever user: no other handler adds an active project of the user's
  others :
      (s : Creations) (db : Db)
      → active_projects user db ≤ active_projects user s.db
      → Step user limit s (record s { db = db })

pub data Reaches (user : Uuid) (limit : ℕ) : Creations → Creations → Type 0 where
  stays : (s : Creations) → Reaches user limit s s
  then_step :
      (s t u : Creations) → Reaches user limit s t → Step user limit t u → Reaches user limit s u

-- Whoever is behind the lock has it, and a count below the limit is true still.
abbrev Held : Uuid → ℕ → Creations → ℕ → Stage → Type 0
Held user limit s i waiting = Unit
Held user limit s i locked = s.holder ≡ some i
Held user limit s i counted = (s.holder ≡ some i) × (active_projects user s.db < limit)

pub record IsLocked (user : Uuid) (limit : ℕ) (s : Creations) : Type 0 where
  pub within : active_projects user s.db ≤ limit
  pub held : (i : ℕ) → Held user limit s i (s.stage i)

count_of : Uuid → Option ((Uuid × Time) × Db) → ℕ
count_of user none = 0
count_of user (some (_, db)) = active_projects user db

count_where-one :
    (p : Project → Bool) (xs : List Project) (x : Project)
    → count_where p (xs ++ x ∷ []) ≤ count_where p xs + 1
count_where-one p xs x = ground (arith, count_where-append p xs (x ∷ []))

-- An INSERT adds at most one.
insert_project-count :
    (user : Uuid) (name slug : Bytes) (id : Uuid) (now : Time) (db db' : Db)
    → insert_project user name slug id now db ≡ some ((id, now), db')
    → active_projects user db' ≤ active_projects user db + 1
unfolding insert_project count_of
insert_project-count user name slug id now db db' e =
    elim (Bool-cases (
      any (λ p. p.id == id || bytes_eq p.slug slug) db.projects
      || not (any (λ u. u.id == user) db.users))) [
        | inl b ↦ let refused = rw b at e in cc
        | inr b ↦
            let grown = ap (count_of user) (rw b at e) in
            rw (sym grown)
              (count_where-one (λ p. p.user_id == user && is_none p.archived_at) db.projects _)
      ]

module _ (user : Uuid) (limit : ℕ) where
  -- No one else is behind the lock.
  alone :
      (s : Creations) (i k : ℕ) (v : Stage)
      → (s.holder ≡ none) ⊎ (s.holder ≡ some i)
      → (k == i) ≡ false
      → Held user limit s k v
      → v ≡ waiting
  alone s i k waiting h n held = refl
  alone s i k locked h n held = ground arith
  alone s i k counted h n held = ground arith

  -- The stages after a step of one transaction.
  Held-at :
      (s t : Creations) (i k : ℕ) (v : Stage)
      → IsLocked user limit s
      → (s.holder ≡ none) ⊎ (s.holder ≡ some i)
      → Held user limit t i v
      → Held user limit t k (at i v s.stage k)
  Held-at s t i k v h free held = elim (Bool-cases (k == i)) [
    | inl e ↦ rw (e, (==_iff k i).0 e) held
    | inr e ↦ rw (e, alone s i k (s.stage k) free e (h.held k)) tt
  ]

  Held-le :
      (s : Creations) (db : Db) (k : ℕ) (v : Stage)
      → active_projects user db ≤ active_projects user s.db
      → Held user limit s k v
      → Held user limit (record s { db = db }) k v
  Held-le s db k waiting le held = tt
  Held-le s db k locked le held = held
  Held-le s db k counted le (held, below) = (held, omega arith)

  IsLocked-Step :
      (s t : Creations) → IsLocked user limit s → Step user limit s t → IsLocked user limit t
  IsLocked-Step _ _ h (locks s i w f) = record {
    within = h.within;
    held = λ k. Held-at s (locks_at i s) i k locked h (inl f) refl;
  }
  IsLocked-Step _ _ h (counts s i l b) =
      let mine : s.holder ≡ some i = rw l at (h.held i) in
      record {
        within = h.within;
        held = λ k. Held-at s (counts_at i s) i k counted h (inr mine) (mine, b);
      }
  IsLocked-Step _ _ h (aborts s i mine) = record {
    within = h.within;
    held = λ k. Held-at s (ended i s.db s) i k waiting h (inr mine) tt;
  }
  IsLocked-Step _ _ h (commits s i name slug id now db l e) =
      let (mine, below) = rw l at (h.held i) in
      record {
        within = omega (arith, insert_project-count user name slug id now s.db db e);
        held = λ k. Held-at s (ended i db s) i k waiting h (inr mine) tt;
      }
  IsLocked-Step _ _ h (others s db le) = record {
    within = omega (arith, h.within);
    held = λ k. Held-le s db k (s.stage k) le (h.held k);
  }

  from_start :
      (s t : Creations) → IsLocked user limit s → Reaches user limit s t → IsLocked user limit t
  from_start _ _ h (stays s) = h
  from_start _ _ h (then_step s t u run step) = IsLocked-Step t u (from_start s t h run) step

  -- However many creations of a user run at the same time, in any order of their steps and with any
  -- other requests between them, the user's active projects stay within the plan's limit, if they are
  -- so at a start at which no creation is behind the lock.
  pub active_projects-Reaches :
      (s t : Creations)
      → active_projects user s.db ≤ limit
      → ((i : ℕ) → s.stage i ≡ waiting)
      → Reaches user limit s t
      → active_projects user t.db ≤ limit
  active_projects-Reaches s t le w run =
      (from_start s t (record { within = le; held = λ i. rw (w i) tt }) run).within
