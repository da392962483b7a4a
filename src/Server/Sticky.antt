-- ===== src/Server/Sticky.antt =====
-- internal/server/codex_session.go: which account produced a Codex response, by credential group.
-- Times are nanoseconds; a map is a function from its keys.
pub mod Keys
pub mod Refines
use hypitoken.Prelude.{
  ℕ, ◌+◌, ◌==◌, Bool, true, false, Option, none, some, List, [], ◌∷◌, String, concat, ◌||◌, ltb,
  str_eq, if◌then◌else◌,
}

-- codexRespAccountEntry
pub record Entry : Type 0 where
  pub auth_id : String
  pub exp : ℕ

abbrev pub Entries : Type 0
Entries = String → Option Entry

-- codexRespAccountTTL, an hour
abbrev pub default_ttl : ℕ
default_ttl = 3_600_000_000_000

-- newCodexRespAccountStore: the time to live; one of zero or below has become 0
abbrev pub ttl_of : ℕ → ℕ
ttl_of ttl = if ttl == 0 then default_ttl else ttl

-- codexRespKey
unfoldable pub resp_key : String → String → String
resp_key group resp = concat group (concat "|" resp)

-- Bind
unfoldable pub bind : ℕ → String → String → String → ℕ → Entries → Entries
bind ttl group resp auth now m key =
    if str_eq resp "" || str_eq auth ""
    then m key
    else (if str_eq key (resp_key group resp)
        then some (record { auth_id = auth; exp = now + ttl })
        else m key)

abbrev pub unexpired : ℕ → Option Entry → Option String
unexpired now none = none
unexpired now (some e) = if ltb e.exp now then none else some e.auth_id

-- Get
unfoldable pub get : String → String → ℕ → Entries → Option String
get group resp now m = if str_eq resp "" then none else unexpired now (m (resp_key group resp))

abbrev pub swept : ℕ → Option Entry → Option Entry
swept now none = none
swept now (some e) = if ltb e.exp now then none else some e

-- a round of janitor
unfoldable pub sweep : ℕ → Entries → Entries
sweep now m key = swept now (m key)

-- What callers and the janitor do to the store, each at its time.
pub data Event : Type 0 where
  binds : String → String → String → ℕ → Event
  sweeps : ℕ → Event

abbrev pub time_of : Event → ℕ
time_of (binds group resp auth now) = now
time_of (sweeps now) = now

unfoldable pub apply_event : ℕ → Event → Entries → Entries
unfolding bind sweep
apply_event ttl (binds group resp auth now) m = bind ttl group resp auth now m
apply_event ttl (sweeps now) m = sweep now m

-- The store after events, the latest first.
unfoldable pub store_after : ℕ → List Event → Entries
unfolding apply_event
store_after ttl [] key = none
store_after ttl (e ∷ es) key = apply_event ttl e (store_after ttl es) key
