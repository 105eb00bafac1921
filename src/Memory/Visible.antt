-- ===== src/Memory/Visible.antt =====
-- What a memory that a search finds is like, described without the query.
use mathlib.Core.Option.{some-injective}
use headhunt_agent.Prelude.{
  ◌≡◌, ◌&&◌, some, ℕ, ◌<◌, String, ap, arith, false, ◌==◌, ◌∙◌, none, ◌∷◌, true, [], sym, Bool, ◌≢◌,
  inl, not, inr, eq_iff, Option, ◌≤◌, leb, ltb, eq_refl, ◌||◌, refl, str_eq, str_eq-eq-false, List,
  str_eq-cases, Has, subst, Bool-cases, any,
}
use headhunt_agent.Memory.{is_in, pii_rank, is_bounded}
use headhunt_agent.Memory.Search.{
  SearchFilters, is_visible, within_boundaries, fits_boundary, fits_thread, pii_listed, is_live,
  owned_by,
}
use headhunt_agent.Retention.{MemoryItem, MemoryStatus}
use headhunt_agent.Value.{
  Fields, Value, str, get, bool, uuid, int, negative, list, dict, null, truthy,
}
use headhunt_agent.Storage.Models.{Datetime, Uuid}

-- A row with a boundary is found only by a caller with the same one.
pub record IsWithin (filters : Fields) (row : MemoryItem) : Type 0 where
  pub tenant : (id : String) → row.tenant_id ≡ some id → get "tenant_id" filters ≡ str id
  pub guild : (id : String) → row.guild_id ≡ some id → get "guild_id" filters ≡ str id
  pub user : (id : String) → row.user_id ≡ some id → get "user_id" filters ≡ str id
  pub project : (id : String) → row.project_id ≡ some id → get "project_id" filters ≡ str id
  pub requisition :
      (id : String) → row.requisition_id ≡ some id → get "requisition_id" filters ≡ str id
  pub candidate : (id : String) → row.candidate_id ≡ some id → get "candidate_id" filters ≡ str id
  pub thread : (id : Uuid) → row.thread_id ≡ some id → get "thread_id" filters ≡ uuid id

boundary_lem :
    (v : Value) (column : Option String) (id : String)
    → fits_boundary v column ≡ true
    → column ≡ some id
    → v ≡ str id
unfolding fits_boundary
boundary_lem v none id h e = absurd (cc)
boundary_lem (str s) (some column) id h e =
    ap str (sym ((eq_iff column s).0 h) ∙ some-injective _ _ e)
boundary_lem null (some column) id h e = absurd (cc)
boundary_lem (bool b) (some column) id h e = absurd (cc)
boundary_lem (int n) (some column) id h e = absurd (cc)
boundary_lem (negative n) (some column) id h e = absurd (cc)
boundary_lem (uuid u) (some column) id h e = absurd (cc)
boundary_lem (list xs) (some column) id h e = absurd (cc)
boundary_lem (dict d) (some column) id h e = absurd (cc)

thread_lem :
    (v : Value) (scope : String) (column : Option Uuid) (id : Uuid)
    → fits_thread v scope column ≡ true
    → column ≡ some id
    → v ≡ uuid id
unfolding fits_thread
thread_lem v scope none id h e = absurd (cc)
thread_lem (uuid u) scope (some column) id h e = ap uuid (same column u h (some-injective _ _ e))
  where
    same : (a b : Uuid) → (a == b) ≡ true → a ≡ id → b ≡ id
    same a b h e = ground arith
thread_lem null scope (some column) id h e = absurd (cc)
thread_lem (bool b) scope (some column) id h e = absurd (cc)
thread_lem (int n) scope (some column) id h e = absurd (cc)
thread_lem (negative n) scope (some column) id h e = absurd (cc)
thread_lem (str s) scope (some column) id h e = absurd (cc)
thread_lem (list xs) scope (some column) id h e = absurd (cc)
thread_lem (dict d) scope (some column) id h e = absurd (cc)

and_parts : (a b : Bool) → (a && b) ≡ true → (a ≡ true) × (b ≡ true)
and_parts a b h = (ground arith, ground arith)

within_lem :
    (filters : Fields) (row : MemoryItem)
    → within_boundaries filters row ≡ true
    → IsWithin filters row
unfolding within_boundaries
within_lem filters row h =
    let (tenant, h1) = and_parts _ _ h in
    let (guild, h2) = and_parts _ _ h1 in
    let (user, h3) = and_parts _ _ h2 in
    let (project, h4) = and_parts _ _ h3 in
    let (requisition, h5) = and_parts _ _ h4 in
    let (candidate, thread) = and_parts _ _ h5 in
    record {
      tenant = λ id. boundary_lem _ _ id tenant;
      guild = λ id. boundary_lem _ _ id guild;
      user = λ id. boundary_lem _ _ id user;
      project = λ id. boundary_lem _ _ id project;
      requisition = λ id. boundary_lem _ _ id requisition;
      candidate = λ id. boundary_lem _ _ id candidate;
      thread = λ id. thread_lem _ row.scope _ id thread;
    }

-- A level of personal data is none, or at most the highest one allowed in the order of levels.
pub data IsPiiAllowed (level most : String) : Type 0 where
  no_data : level ≡ "none" → IsPiiAllowed level most
  ranked :
      (m n : ℕ) → pii_rank level ≡ some m → pii_rank most ≡ some n → m ≤ n → IsPiiAllowed level most

pii_lem : (level most : String) → pii_listed level most ≡ true → IsPiiAllowed level most
unfolding pii_listed
pii_lem level most h = go (pii_rank most) (pii_rank level) refl refl h
  where
    go :
        (o p : Option ℕ)
        → pii_rank most ≡ o
        → pii_rank level ≡ p
        → elim o [
          | none ↦ str_eq level "none"
          | some n ↦ elim p [ none ↦ false | some rank ↦ leb rank n ]
        ]
          ≡ true
        → IsPiiAllowed level most
    go none p e f k = no_data ((eq_iff level "none").0 k)
    go (some n) none e f k = absurd (cc)
    go (some n) (some m) e f k = ranked m n f e (ground arith)

-- Active and not expired, within the boundaries, of an allowed level, and a memory of an agent only
-- for its own agent.
pub record IsOpenTo (filters : Fields) (now : Datetime) (owner most : String) (row : MemoryItem)
    : Type 0 where
  pub active : row.status ≡ MemoryStatus.active
  pub not_expired : (t : Datetime) → row.expires_at ≡ some t → now < t
  pub level : IsPiiAllowed row.pii_level most
  pub within : IsWithin filters row
  pub own_agent :
      (agent : String)
      → row.scope ≡ "AgentMemory"
      → owner ≢ ""
      → row.owner_agent ≡ some agent
      → agent ≡ owner

live_status :
    (now : Datetime) (row : MemoryItem)
    → is_live now row ≡ true
    → (row.status ≡ MemoryStatus.active) × ((t : Datetime) → row.expires_at ≡ some t → now < t)
live_status now row h =
    let (first, second) = and_parts _ _ h in (status row.status first, expiry row.expires_at second)
  where
    status :
        (s : MemoryStatus)
        → elim s [ MemoryStatus.active ↦ true | _ ↦ false ] ≡ true
        → s ≡ MemoryStatus.active
    status MemoryStatus.active e = refl
    status MemoryStatus.draft e = absurd (cc (e))
    status MemoryStatus.pending_review e = absurd (cc (e))
    status MemoryStatus.revoked e = absurd (cc (e))
    status MemoryStatus.expired e = absurd (cc (e))

    expiry :
        (o : Option Datetime)
        → elim o [ none ↦ true | some t ↦ ltb now t ] ≡ true
        → (t : Datetime) → o ≡ some t
        → now < t
    expiry none k t e = absurd (cc (e))
    expiry (some x) k t e = let same = some-injective x t e in ground arith

agent_lem :
    (owner scope agent : String) (column : Option String)
    → (str_eq owner "" || not (str_eq scope "AgentMemory") || owned_by owner column) ≡ true
    → scope ≡ "AgentMemory"
    → owner ≢ ""
    → column ≡ some agent
    → agent ≡ owner
agent_lem owner scope agent none h s o e = absurd (cc (e))
agent_lem owner scope agent (some x) h s o e =
    sym (some-injective x agent e)
    ∙ (eq_iff x owner).0 (
        third (str_eq owner "") (str_eq scope "AgentMemory") (str_eq x owner) (str_eq-eq-false o)
          (rw s (eq_refl "AgentMemory")) h)
  where
    third : (a b d : Bool) → a ≡ false → b ≡ true → (a || not b || d) ≡ true → d ≡ true
    third a b d p q h = ground arith

pub is_visible-IsOpenTo :
    (json_contains : Value → Value → Bool) (f : SearchFilters) (row : MemoryItem)
    → is_visible json_contains f row ≡ true
    → (is_in row.scope f.allowed_scopes ≡ true)
      × IsOpenTo f.filters f.now f.agent_memory_owner f.max_pii_level row
unfolding is_visible
is_visible-IsOpenTo json_contains f row h =
    let (live, h1) = and_parts _ _ h in
    let (scope, h2) = and_parts _ _ h1 in
    let (level, h3) = and_parts _ _ h2 in
    let (within, h4) = and_parts _ _ h3 in
    let (owner, h5) = and_parts _ _ h4 in
    let (agent, h6) = and_parts _ _ h5 in
    let (active, expiry) = live_status f.now row live in
    (
      scope,
      record {
        active = active;
        not_expired = expiry;
        level = pii_lem row.pii_level f.max_pii_level level;
        within = within_lem f.filters row within;
        own_agent = λ id s o. agent_lem f.agent_memory_owner row.scope id row.owner_agent agent s o;
      },
    )

-- The filters that bound a scope: the thread of a run, or a tenant, guild, user, project, requisition
-- or candidate for a scope that outlives runs.
pub data IsBounded (filters : Fields) (scope : String) : Type 0 where
  by_thread :
      scope ≡ "RunMemory" → truthy (get "thread_id" filters) ≡ true → IsBounded filters scope
  by_owner :
      (key : String)
      → scope ≢ "RunMemory"
      → Has key (
          "tenant_id" ∷ "guild_id" ∷ "user_id" ∷ "project_id" ∷ "requisition_id" ∷ "candidate_id"
          ∷ [])
      → truthy (get key filters) ≡ true
      → IsBounded filters scope

any-Has :
    (p : String → Bool) (xs : List String)
    → any p xs ≡ true
    → (x : String) × Has x xs × (p x ≡ true)
any-Has p [] h = absurd (cc)
any-Has p (x ∷ xs) h = elim (Bool-cases (p x)) [
  | inl here ↦ (x, inl refl, here)
  | inr not_here ↦ let (y, there, e) = any-Has p xs (rw not_here at h) in (y, inr there, e)
]

pub is_bounded-IsBounded :
    (filters : Fields) (scope : String) → is_bounded filters scope ≡ true → IsBounded filters scope
unfolding is_bounded
is_bounded-IsBounded filters scope h = elim (str_eq-cases scope "RunMemory") [
  | inl run ↦ by_thread run (rw (eq_refl "RunMemory") at (rw run at h))
  | inr other ↦
      let (key, there, e) =
        any-Has (λ key. truthy (get key filters))
          ("tenant_id" ∷ "guild_id" ∷ "user_id" ∷ "project_id" ∷ "requisition_id" ∷ "candidate_id"
            ∷ [])
          (rw (str_eq-eq-false other) at h) in
      by_owner key other there e
]

pub is_in-Has :
    (value : String) (values : List String) → is_in value values ≡ true → Has value values
is_in-Has value values h =
    let (x, there, e) = any-Has (λ v. str_eq v value) values h in
    subst (λ y. Has y values) ((eq_iff x value).0 e) there
