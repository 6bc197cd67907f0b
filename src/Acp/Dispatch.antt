-- ===== src/Acp/Dispatch.antt =====
-- What ReadLoop makes of a line, and the answers to method calls: dispatch and its handlers in
-- engine/acp/conn.go.
--
-- A handler and the JSON encoder are functions on texts; json.Unmarshal of a line is the parameter
-- `decode`, with none for its error.

use agentrun.Prelude.{
  ◌==◌, Str, bytes, Bool, true, false, Option, none, some, [], ◌∷◌, ◌++◌, if◌then◌else◌, is_empty,
  Assoc, lookup, ℤ, negsuc,
}

-- The error codes -32601, -32603 and -32000.
abbrev pub rpc_method_not_found : ℤ
rpc_method_not_found = negsuc 32600

abbrev pub rpc_internal_error : ℤ
rpc_internal_error = negsuc 32602

abbrev pub rpc_application_error : ℤ
rpc_application_error = negsuc 31999

pub record RpcError : Type 0 where
  pub code : ℤ
  pub message : Str

-- rpcMessage
pub record RpcMessage : Type 0 where
  pub id : Option ℤ
  pub method : Str
  pub params : Str
  pub result : Str
  pub error : Option RpcError

-- rpcResponse, with its id
pub record RpcResponse : Type 0 where
  pub response_id : ℤ
  pub result : Str
  pub error : Option RpcError

-- A result with a text, or an error with one.
pub data Outcome : Type 0 where
  ok err : Str → Outcome

pub data Routed : Type 0 where
  ignored : Routed
  malformed : Str → Routed
  response : ℤ → Str → Option RpcError → Routed
  notification : Str → Str → Routed
  reply : RpcResponse → Routed

abbrev error_response : ℤ → ℤ → Str → RpcResponse
error_response id code text = record {
  response_id = id;
  result = [];
  error = some (record { code = code; message = text });
}

-- sendResult, with json.Marshal as `encode`.
send_result : (Str → Outcome) → ℤ → Str → RpcResponse
send_result encode id value = elim (encode value) [
  | ok data_text ↦ record { response_id = id; result = data_text; error = none }
  | err text ↦ error_response id rpc_internal_error (bytes "marshal result: " ++ text)
]

-- The goroutine that handleMethodCall starts.
call_handler : (Str → Outcome) → (Str → Outcome) → ℤ → Str → RpcResponse
unfolding send_result
call_handler encode handler id params = elim (handler params) [
  | ok value ↦ send_result encode id value
  | err text ↦ error_response id rpc_application_error text
]

-- handleMethodCall
pub handle_method_call : (Str → Outcome) → Assoc (Str → Outcome) → ℤ → Str → Str → RpcResponse
unfolding call_handler
handle_method_call encode handlers id method params = elim (lookup method handlers) [
  | none ↦ error_response id rpc_method_not_found (bytes "method not found: " ++ method)
  | some handler ↦ call_handler encode handler id params
]

-- dispatch
pub dispatch : (Str → Outcome) → Assoc (Str → Outcome) → RpcMessage → Routed
unfolding handle_method_call
dispatch encode handlers msg = elim msg.id [
  | some id ↦
      if is_empty msg.method
      then response id msg.result msg.error
      else reply (handle_method_call encode handlers id msg.method msg.params)
  | none ↦ if is_empty msg.method then ignored else notification msg.method msg.params
]

abbrev starts_object : Str → Bool
starts_object [] = false
starts_object (b ∷ line) = b == 123

-- One line in ReadLoop: blank lines and those that are no object are skipped.
pub read_message :
    (Str → Option RpcMessage) → (Str → Outcome) → Assoc (Str → Outcome) → Str → Routed
unfolding dispatch
read_message decode encode handlers line = elim (starts_object line) [
  | false ↦ ignored
  | true ↦ elim (decode line) [ none ↦ malformed line | some msg ↦ dispatch encode handlers msg ]
]
