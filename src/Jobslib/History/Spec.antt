-- ===== src/Jobslib/History/Spec.antt =====
-- What the library promises of its jobs (jobslib/jobslib.go), without its maps, its messages and its
-- calls: each ID has an owner and a phase, and only a start, the end of a process or a permitted stop
-- changes them.
use jobmaster.Base.{
  ◌≡◌, ◌⊎◌, ℕ, Bool, true, List, [], ◌∷◌, Option, none, some, Text, text_eq, if◌then◌else◌,
}

-- A time is that of the end.
pub data Phase : Type 0 where
  active : Phase
  killed over : ℕ → Phase

pub record Entry : Type 0 where
  pub owner : Text
  pub phase : Phase

abbrev pub Abstract : Type 0
Abstract = Text → Option Entry

abbrev pub update : Text → Entry → Abstract → Abstract
update id e s id' = if text_eq id id' then some e else s id'

pub data Action : Type 0 where
  submit : Text → Text → Action
  -- the process of that job has ended
  complete : Text → Action
  -- by a caller, who may be told to override the owner
  stop : Text → Text → Bool → Action

-- Who may stop a job.
abbrev pub May : Text → Bool → Text → Type 0
May caller override owner = (owner ≡ caller) ⊎ (override ≡ true)

-- The transitions of the abstract library.
pub data Spec (s : Abstract) : Action → Abstract → Type 0 where
  submits :
      (id owner : Text)
      → s id ≡ none
      → Spec s (submit id owner) (update id (record { owner = owner; phase = active }) s)
  completes :
      (id owner : Text) (time : ℕ)
      → s id ≡ some (record { owner = owner; phase = active })
      → Spec s (complete id) (update id (record { owner = owner; phase = over time }) s)
  -- it has been stopped before
  completes_killed :
      (id owner : Text) (time : ℕ)
      → s id ≡ some (record { owner = owner; phase = killed time })
      → Spec s (complete id) s
  stops :
      (id owner caller : Text) (override : Bool) (time : ℕ)
      → s id ≡ some (record { owner = owner; phase = active })
      → May caller override owner
      → Spec s
          (stop id caller override)
          (update id (record { owner = owner; phase = killed time }) s)
  stops_killed :
      (id owner caller : Text) (override : Bool) (time : ℕ)
      → s id ≡ some (record { owner = owner; phase = killed time })
      → May caller override owner
      → Spec s (stop id caller override) s
  stops_over :
      (id owner caller : Text) (override : Bool) (time : ℕ)
      → s id ≡ some (record { owner = owner; phase = over time })
      → May caller override owner
      → Spec s (stop id caller override) s

-- A run, the last action first.
pub data SpecRun (s : Abstract) : List Action → Abstract → Type 0 where
  stays : SpecRun s [] s
  goes :
      {acts : List Action} {s1 s2 : Abstract} (a : Action)
      → SpecRun s acts s1
      → Spec s1 a s2
      → SpecRun s (a ∷ acts) s2
