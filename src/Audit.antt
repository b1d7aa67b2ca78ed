-- ===== src/Audit.antt =====
-- src/audit.rs: the log of events, whose entries are chained by their hashes. SHA-256 in hexadecimal,
-- the text of a time and the clock are parameters; a JSON value is the text that it is written as.
pub mod Chain
pub mod Forgery
use memo_build.Prelude.{
  ℕ, ◌≤◌, Bool, true, false, not, ◌&&◌, Option, none, some, List, [], ◌∷◌, ◌++◌, replicate, filter,
  if◌then◌else◌, leb, Text, codes, text_eq, contains_str,
}

pub data EventType : Type 0 where
  cache_read cache_write node_join node_leave gc_run scale_up scale_down : EventType
  token_created token_revoked build_started build_completed build_failed : EventType

-- `Display`, which tells all the types apart.
unfoldable pub event_text : EventType → Text
event_text cache_read = codes "cache.read"
event_text cache_write = codes "cache.write"
event_text node_join = codes "cluster.node.join"
event_text node_leave = codes "cluster.node.leave"
event_text gc_run = codes "gc.run"
event_text scale_up = codes "scaling.up"
event_text scale_down = codes "scaling.down"
event_text token_created = codes "auth.token.created"
event_text token_revoked = codes "auth.token.revoked"
event_text build_started = codes "build.started"
event_text build_completed = codes "build.completed"
event_text build_failed = codes "build.failed"

pub record AuditEvent : Type 0 where
  pub event_type : EventType
  pub actor : Text
  pub resource : Text
  pub action : Text
  pub details : Text

pub record AuditEntry : Type 0 where
  pub timestamp : ℕ
  pub event_type : EventType
  pub actor : Text
  pub resource : Text
  pub action : Text
  pub details : Text
  pub prev_hash : Text
  pub hash : Text

pub record AuditLog : Type 0 where
  pub entries : List AuditEntry
  pub last_hash : Text

-- `"0".repeat(64)`
abbrev pub genesis : Text
genesis = replicate 64 b'0'

abbrev pub new_log : AuditLog
new_log = record { entries = []; last_hash = genesis }

pub record AuditFilter : Type 0 where
  pub event_type : Option EventType
  pub actor : Option Text
  pub resource : Option Text
  pub start_time : Option ℕ
  pub end_time : Option ℕ

-- The test of a field that the filter has.
abbrev given : {A : Type 0} → Option A → (A → Bool) → Bool
given none test = true
given (some a) test = test a

-- Two types are equal if their texts are.
unfoldable pub matches : AuditFilter → AuditEntry → Bool
unfolding event_text
matches f entry =
    given f.event_type (λ et. text_eq (event_text entry.event_type) (event_text et))
    && given f.actor (λ a. text_eq entry.actor a)
    && given f.resource (λ r. contains_str entry.resource r)
    && given f.start_time (λ start. leb start entry.timestamp)
    && given f.end_time (λ end. leb entry.timestamp end)

unfoldable pub query : AuditFilter → AuditLog → List AuditEntry
unfolding matches
query f log = filter (matches f) log.entries

module _ (sha256_hex : Text → Text) (rfc3339 : ℕ → Text) where
  abbrev pub fields : AuditEntry → Text
  fields e =
      rfc3339 e.timestamp
      ++ event_text e.event_type
      ++ e.actor
      ++ e.resource
      ++ e.action
      ++ e.details

  -- The bytes that the hasher is fed.
  unfoldable pub hashed_bytes : AuditEntry → Text
  hashed_bytes e = fields e ++ e.prev_hash

  unfoldable pub compute_hash : AuditEntry → Text
  unfolding hashed_bytes
  compute_hash e = sha256_hex (hashed_bytes e)

  -- `AuditEntry::new`
  unfoldable pub new_entry : ℕ → AuditEvent → Text → AuditEntry
  unfolding compute_hash
  new_entry now event prev_hash =
      let entry : AuditEntry = record {
        timestamp = now;
        event_type = event.event_type;
        actor = event.actor;
        resource = event.resource;
        action = event.action;
        details = event.details;
        prev_hash = prev_hash;
        hash = [];
      } in
      record entry { hash = compute_hash entry }

  unfoldable pub append : ℕ → AuditEvent → AuditLog → AuditLog
  unfolding new_entry
  append now event log =
      let entry = new_entry now event log.last_hash in
      record { entries = log.entries ++ entry ∷ []; last_hash = entry.hash }

  -- The loop over the entries.
  unfoldable pub verify_from : Text → List AuditEntry → Bool
  unfolding compute_hash
  verify_from prev_hash [] = true
  verify_from prev_hash (entry ∷ entries) =
      let rest = verify_from entry.hash entries in
      if not (text_eq entry.prev_hash prev_hash)
      then false
      else if not (text_eq (compute_hash entry) entry.hash)
      then false
      else rest

  unfoldable pub verify : AuditLog → Bool
  unfolding verify_from
  verify log = verify_from genesis log.entries

  -- The logger's calls, each with the time that the clock shows.
  unfoldable pub log_events : List (ℕ × AuditEvent) → AuditLog → AuditLog
  unfolding append
  log_events [] log = log
  log_events ((now, event) ∷ events) log = log_events events (append now event log)

  -- A line of the export as CSV; no field is quoted.
  unfoldable pub csv_line : AuditEntry → Text
  csv_line e =
      rfc3339 e.timestamp
      ++ codes ","
      ++ event_text e.event_type
      ++ codes ","
      ++ e.actor
      ++ codes ","
      ++ e.resource
      ++ codes ","
      ++ e.action
      ++ codes ","
      ++ e.details
      ++ 10 ∷ []

  unfoldable pub csv_lines : List AuditEntry → Text
  unfolding csv_line
  csv_lines [] = []
  csv_lines (e ∷ entries) = csv_line e ++ csv_lines entries

  unfoldable pub export_csv : AuditLog → Text
  unfolding csv_lines
  export_csv log =
      codes "timestamp,event_type,actor,resource,action,details" ++ 10 ∷ csv_lines log.entries

-- The helpers of the cache and of a build. The JSON of the details is `{"hash": ...}` and
-- `{"build_id": ...}`, with the text written by `quote`.
unfoldable pub cache_event : (Text → Text) → Text → Bool → AuditEvent
cache_event quote hash is_write = record {
  event_type = if is_write then cache_write else cache_read;
  actor = codes "system";
  resource = codes "/cache/" ++ hash;
  action = if is_write then codes "PUT" else codes "GET";
  details = codes "{\"hash\":" ++ quote hash ++ codes "}";
}

unfoldable pub build_event : (Text → Text) → Text → Text → AuditEvent
build_event quote build_id status = record {
  event_type =
      if text_eq status (codes "started")
      then build_started
      else if text_eq status (codes "completed")
      then build_completed
      else build_failed;
  actor = codes "system";
  resource = codes "/build/" ++ build_id;
  action = status;
  details = codes "{\"build_id\":" ++ quote build_id ++ codes "}";
}
