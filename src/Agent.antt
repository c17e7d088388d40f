-- ===== src/Agent.antt =====
-- The messages between agents, crates/core/src/agent.rs. `hops` is a `u8`.
use wyrtloom.Base.{ℕ, String, Option, none, some, length, leb, ltb, if◌then◌else◌, str_eq}
use wyrtloom.Kanban.{TaskId}
use wyrtloom.Canon.{Bytes}

pub data AgentMessage : Type 0 where
  request response delegation result : TaskId → ℕ → Bytes → AgentMessage
  error : TaskId → ℕ → String → AgentMessage

-- What the text of a malformed message tells apart.
pub data MessageError : Type 0 where
  hop_limit_exceeded body_too_large : ℕ → MessageError
  empty_error : MessageError

unfoldable pub origin_task : AgentMessage → TaskId
origin_task (request t h b) = t
origin_task (response t h b) = t
origin_task (delegation t h b) = t
origin_task (result t h b) = t
origin_task (error t h e) = t

unfoldable pub hops : AgentMessage → ℕ
hops (request t h b) = h
hops (response t h b) = h
hops (delegation t h b) = h
hops (result t h b) = h
hops (error t h e) = h

abbrev pub max_hops : ℕ
max_hops = 16

abbrev pub max_body_bytes : ℕ
max_body_bytes = 1048576

-- none: `Ok(())`
unfoldable pub check_body : Bytes → Option MessageError
check_body body =
    if ltb max_body_bytes (length body) then some (body_too_large (length body)) else none

unfoldable pub check_content : AgentMessage → Option MessageError
unfolding check_body
check_content (request t h body) = check_body body
check_content (response t h body) = check_body body
check_content (delegation t h body) = check_body body
check_content (result t h body) = check_body body
check_content (error t h text) = if str_eq text "" then some empty_error else none

unfoldable pub validate : AgentMessage → Option MessageError
unfolding hops check_content
validate m = if leb max_hops (hops m) then some (hop_limit_exceeded (hops m)) else check_content m
