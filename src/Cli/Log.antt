-- ===== src/Cli/Log.antt =====
-- The subscribers of the global log, which lib/src/core/cli/Interpreter.cc and lib/src/lsp/Run.cc
-- suspend and resume. The log is the compiler library's: an interface over its states.
pub mod Restored
use no.Prelude.{
  ℕ, Bool, true, false, List, [], ◌∷◌, ◌++◌, ◌≡◌, ◌==◌, ==_iff, refl, suc, ◌+◌, ◌≤◌, arith, map,
  if◌then◌else◌,
}
use no.Prelude.Dict.{Key, IsFresh}

-- An identifier, and whether the subscriber is suspended.
abbrev pub Subscribers : Type 0
Subscribers = List (ℕ × Bool)

instance abbrev pub id_key : Key ℕ
id_key = record { same = ◌==◌; same_iff = ==_iff }

abbrev pub without : ℕ → Subscribers → Subscribers
without i [] = []
without i ((j, suspended) ∷ us) =
    let rest = without i us in if j == i then rest else (j, suspended) ∷ rest

abbrev pub resumed : ℕ → Subscribers → Subscribers
resumed i us = map (λ u. (u.0, if u.0 == i then false else u.1)) us

abbrev pub all_suspended : Subscribers → Subscribers
all_suspended us = map (λ u. (u.0, true)) us

pub record Logger (S : Type 0) : Type 0 where
  pub subscribers : S → Subscribers
  pub suspend_all : S → S
  pub subscribe : S → ℕ × S
  pub unsubscribe : ℕ → S → S
  pub resume : ℕ → S → S

pub record LoggerLaws {S : Type 0} (log : Logger S) : Type 0 where
  pub suspends : (s : S) → log.subscribers (log.suspend_all s) ≡ all_suspended (log.subscribers s)
  -- A new subscriber is active.
  pub subscribes :
      (s : S)
      → log.subscribers (log.subscribe s).1 ≡ log.subscribers s ++ ((log.subscribe s).0, false) ∷ []
  pub fresh : (s : S) → IsFresh (log.subscribe s).0 (log.subscribers s)
  pub unsubscribes :
      (i : ℕ) (s : S) → log.subscribers (log.unsubscribe i s) ≡ without i (log.subscribers s)
  pub resumes : (i : ℕ) (s : S) → log.subscribers (log.resume i s) ≡ resumed i (log.subscribers s)

-- The identifiers of the subscribers that a test of `IsSuspended()` picks.
abbrev pub ids_where : (Bool → Bool) → Subscribers → List ℕ
ids_where picked [] = []
ids_where picked ((i, suspended) ∷ us) =
    let rest = ids_where picked us in if picked suspended then i ∷ rest else rest

-- `for (auto id : ids) Log->Resume(id);`
abbrev pub resume_all : {S : Type 0} → Logger S → List ℕ → S → S
resume_all log [] s = s
resume_all log (i ∷ ids) s = resume_all log ids (log.resume i s)

-- A log that is its list of subscribers; a new one has a number above all others.
abbrev next_id : Subscribers → ℕ
next_id [] = 1
next_id ((i, suspended) ∷ us) = suc i + next_id us

abbrev pub sample_log : Logger Subscribers
sample_log = record {
  subscribers = λ us. us;
  suspend_all = all_suspended;
  subscribe = λ us. (next_id us, us ++ (next_id us, false) ∷ []);
  unsubscribe = without;
  resume = resumed;
}

next_id-IsFresh : (us : Subscribers) (k : ℕ) → next_id us ≤ k → IsFresh k us
next_id-IsFresh [] k h = tt
next_id-IsFresh ((i, suspended) ∷ us) k h =
    (ground (arith, h), next_id-IsFresh us k (omega (arith, h)))

pub sample_log-LoggerLaws : LoggerLaws sample_log
sample_log-LoggerLaws = record {
  suspends = λ us. refl;
  subscribes = λ us. refl;
  fresh = λ us. next_id-IsFresh us (next_id us) (omega arith);
  unsubscribes = λ i us. refl;
  resumes = λ i us. refl;
}
