-- ===== src/Client/Sdk/Sending.antt =====
-- client/src/sdk_http.rs, SdkHttpClient::send: one exchange, cut where it awaits. The HTTP client is
-- outside: what an exchange sees of it are the response's head and its chunks.
pub mod Pacing
use moenotes_api.Prelude.{
  Bool, List, Option, [], codes, if◌then◌else◌, is_empty, leb, length, ltb, none, not, some, true,
  ℕ, ◌++◌, ◌+◌, ◌-◌, ◌==◌, ◌^◌, ◌||◌, ◌∷◌,
}
use moenotes_api.Client.Sdk.Base.{
  Bytes, Field, SdkError, SdkResult, busy, cancelled, err, error, guard, http_status, invalid_input,
  ok, protocol, timeout, transport, ◌>>=◌, ◌>>◌,
}
use moenotes_api.Client.Sdk.Request.{SdkHeaders, SdkHttpClient, SdkHttpOptions, form}
use moenotes_api.Client.Sdk.Reply.{max_response}
use moenotes_api.Client.Sdk.Calls.{SdkRequest}

-- The semaphore of one permit, and the time before which no request starts.
pub record Sender : Type 0 where
  pub permits : ℕ
  pub next : ℕ

-- Where a call of `send` stands that holds the permit.
pub data Exchange : Type 0 where
  waiting sent : Exchange

-- `try_acquire`
unfoldable pub begin_send : Sender → SdkResult Sender
begin_send s =
    if s.permits == 0 then err (error busy) else ok (record s { permits = s.permits - 1 })

-- Behind `sleep_until`: the next start is put off.
unfoldable pub start_request : SdkHttpOptions → ℕ → Sender → Sender
start_request options now s = record s { next = now + options.minimum_interval }

-- The permit is dropped: at the end, by an error, a cancellation or the deadline.
unfoldable pub end_send : Sender → Sender
end_send s = record s { permits = s.permits + 1 }

-- `u64::try_from` of the milliseconds since 1970, where the clock is not before that.
unfoldable pub timestamp : Option ℕ → SdkResult ℕ
timestamp none = err (error invalid_input)
timestamp (some ms) = if ltb ms (2 ^ 64) then ok ms else err (error invalid_input)

-- A header that is sent only with a text.
abbrev pub optional_header : Bytes → Option Bytes → List Field
optional_header name none = []
optional_header name (some value) = if is_empty value then [] else (name, value) ∷ []

unfoldable pub request_headers : SdkHeaders → Bytes → List Field
request_headers headers request_id =
    (codes "User-Agent", codes "Mozilla/5.0 BSGameSDK")
    ∷ (codes "Api-Version", codes "1")
    ∷ (codes "Content-Type", codes "application/x-www-form-urlencoded")
    ∷ (codes "X-Game-Request-Id", request_id)
    ∷ (optional_header (codes "X-Game-Trace-Id") headers.trace_id
        ++ optional_header (codes "one-sdk-ver") headers.one_sdk_version)

-- What is sent.
pub record HttpRequest : Type 0 where
  pub url : Bytes
  pub headers : List Field
  pub body : Bytes

-- `HeaderValue::from_str`, of a text that is sent.
abbrev pub is_sendable : (Bytes → Bool) → Option Bytes → Bool
is_sendable header_ok none = true
is_sendable header_ok (some value) = is_empty value || header_ok value

unfoldable pub build_request :
    (Bytes → Bool)
    → (Bytes → Bytes)
    → (Bytes → Bytes)
    → SdkHttpClient
    → SdkRequest
    → Option ℕ
    → Bytes
    → SdkResult HttpRequest
unfolding timestamp request_headers form
build_request header_ok percent_decode md5_hex client request clock request_id = do
  ms ← timestamp clock
  body ←
      form percent_decode md5_hex client request.fields request.already_encoded request.current_user
        ms
  guard (is_sendable header_ok client.headers.trace_id) invalid_input
  guard (is_sendable header_ok client.headers.one_sdk_version) invalid_input
  ok (record {
    url = client.base_url ++ request.path;
    headers = request_headers client.headers request_id;
    body = body;
  })

-- The head of a response: its status, whether `is_success` holds, and its `content_length`.
pub record ResponseHead : Type 0 where
  pub status : ℕ
  pub is_success : Bool
  pub content_length : Option ℕ

-- What `chunk` answers, until it answers nothing more: a chunk or an error, by whether it is a
-- timeout.
pub data Chunk : Type 0 where
  chunk : Bytes → Chunk
  broken : Bool → Chunk

abbrev pub network_error : Bool → SdkError
network_error is_timeout = error (if is_timeout then timeout else transport)

unfoldable pub check_head : ResponseHead → SdkResult (Unit {0})
check_head head =
    if not head.is_success || (head.status == 204 || head.status == 205)
    then err (record { kind = http_status; status = some head.status })
    else guard (elim head.content_length [ none ↦ true | some n ↦ leb n max_response ]) protocol

unfoldable pub read_chunks : Bytes → List Chunk → SdkResult Bytes
read_chunks bytes [] = ok bytes
read_chunks bytes (broken is_timeout ∷ chunks) = err (network_error is_timeout)
read_chunks bytes (chunk c ∷ chunks) =
    let rest = read_chunks (bytes ++ c) chunks in
    if ltb max_response (length bytes + length c) then err (error protocol) else rest

unfoldable pub receive : ResponseHead → List Chunk → SdkResult Bytes
unfolding check_head read_chunks
receive head chunks = check_head head >> read_chunks [] chunks

-- The `select!`: a cancellation goes before a result, and a deadline before the rest of the work.
pub data Ending : Type 0 where
  cancelled_first deadline_passed : Ending
  finished : SdkResult Bytes → Ending

abbrev pub outcome : Ending → SdkResult Bytes
outcome cancelled_first = err (error cancelled)
outcome deadline_passed = err (error timeout)
outcome (finished result) = result
