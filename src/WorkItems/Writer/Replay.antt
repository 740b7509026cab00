-- ===== src/WorkItems/Writer/Replay.antt =====
-- The projections are a function of the log, and an event is recorded once.
use meristem.Base.{Bool, true, false, List, [], ◌∷◌, ◌++◌, ◌≡◌, refl, ◌∙◌, Option, none, some}
use meristem.Events.{Spec, Event}
use meristem.Store.{Error, Result, Tables, Store, ok, err}
use meristem.Store.Keeps.{After, Keeps}
use meristem.WorkItems.{Env}
use meristem.WorkItems.Projectors.{project, ◌>>=◌}
use meristem.WorkItems.Writer.{
  append, append_validated, insert_event, record_event, validate, event_exists, event_of,
}

abbrev pub empty_tables : Tables
empty_tables = record { items = []; relations = [] }

-- Folding a log through the projectors, as a rebuild does.
unfoldable pub replay : List Event → Tables → Result Tables
replay [] t = ok t
replay (e ∷ es) t = project e t >>= replay es

bind_regroup :
    {A B C : Type 0} (r : Result A) (f : A → Result C) (g : A → Result B) (h : B → Result C)
    → ((a : A) → f a ≡ (g a >>= h))
    → (r >>= f) ≡ ((r >>= g) >>= h)
bind_regroup (ok a) f g h e = e a
bind_regroup (err x) f g h e = refl

pub replay-append :
    (es fs : List Event) (t : Tables) → replay (es ++ fs) t ≡ (replay es t >>= replay fs)
unfolding replay
replay-append [] fs t = refl
replay-append (e ∷ es) fs t =
    bind_regroup (project e t) (replay (es ++ fs)) (replay es) (replay fs) (replay-append es fs)

-- The tables are what a rebuild from the log gives.
pub record IsDerived (s : Store) : Type 0 where
  pub rebuilt : replay s.events empty_tables ≡ ok s.tables

-- What an invariant asks of a fresh event.
abbrev pub KeepsRecorded : (Store → Type 0) → Env → Spec → Type 0
KeepsRecorded P env spec =
    (s : Store) (t : Tables)
    → P s
    → event_exists (env.digest spec.identity) s.events ≡ false
    → validate spec ≡ none
    → project (event_of (env.digest spec.identity) s.now spec) s.tables ≡ ok t
    → P (record s {
      events = s.events ++ event_of (env.digest spec.identity) s.now spec ∷ [];
      tables = t;
    })

module _ (P : Store → Type 0) (env : Env) (spec : Spec) (keep : KeepsRecorded P env spec) where
  record_event-After :
      (s : Store) (r : Result Tables)
      → P s
      → event_exists (env.digest spec.identity) s.events ≡ false
      → validate spec ≡ none
      → project (event_of (env.digest spec.identity) s.now spec) s.tables ≡ r
      → After P (record_event (event_of (env.digest spec.identity) s.now spec) s r)
  unfolding record_event
  record_event-After s (err x) h n v e = tt
  record_event-After s (ok t) h n v e = keep s t h n v e

  insert_event-After :
      (s : Store) (b : Bool)
      → P s
      → event_exists (env.digest spec.identity) s.events ≡ b
      → validate spec ≡ none
      → After P (insert_event (env.digest spec.identity) spec s b)
  unfolding insert_event
  insert_event-After s true h n v = h
  insert_event-After s false h n v = record_event-After s _ h n v refl

  append_validated-After :
      (s : Store) (o : Option Error)
      → P s
      → validate spec ≡ o
      → After P (append_validated env spec s o)
  unfolding append_validated
  append_validated-After s (some x) h v = tt
  append_validated-After s none h v = insert_event-After s _ h refl v

  -- An invariant that fresh events keep is kept by Append.
  pub append-Keeps : Keeps P (append env spec)
  unfolding append
  append-Keeps = record { at = λ s h. append_validated-After s (validate spec) h refl }

-- Append, fresh or not, leaves tables that a rebuild from the log reproduces.
pub append-IsDerived : (env : Env) (spec : Spec) → Keeps IsDerived (append env spec)
unfolding replay
append-IsDerived env spec = append-Keeps IsDerived env spec λ s t h n v e. record {
  rebuilt =
      replay-append s.events (event_of (env.digest spec.identity) s.now spec ∷ []) empty_tables
      ∙ rw (h.rebuilt, e);
}
