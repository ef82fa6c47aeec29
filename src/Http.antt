-- ===== src/Http.antt =====
-- src/http: the records of the client, its requests and its responses (src/http/client.h,
-- src/http/transport.h). A C string is its bytes before the NUL, and `none` is NULL.
pub mod Text
pub mod Retry
pub mod Transport
pub mod Config
pub mod Credentials
pub mod Answer
pub mod Send
pub mod Read
mod Runs
use tamga_c.Prelude.{ℕ, Bool, Option, List, Bytes}
use tamga_c.Prelude.Int.{ℤ}
use tamga_c.Json.{Json}

pub record Header : Type 0 where
  pub name : Bytes
  pub value : Bytes

pub record Request : Type 0 where
  pub method : Bytes
  pub url : Bytes
  pub headers : List Header
  pub body : Option Bytes
  pub timeout_ms : ℕ

-- TamgaTransportFailure. A value outside of the enumeration counts as `network`.
pub data TransportFailure : Type 0 where
  network oversized no_memory : TransportFailure

-- TamgaHttpResponse
pub record HttpResponse : Type 0 where
  pub status : ℤ
  pub body : Option Bytes
  pub headers : List Header
  pub header_capacity : ℕ
  pub failure : TransportFailure

-- What a call of the transport's `perform` leaves behind: its result and the response.
pub record Performed : Type 0 where
  pub succeeded : Bool
  pub response : HttpResponse

-- The transport is the caller's or libcurl's: what it answers to the request, which is the k-th one
-- that it gets.
abbrev pub Transport : Type 0
Transport = ℕ → Request → Performed

-- TamgaAuthKind; `raw` is a value outside of the enumeration.
pub data AuthKind : Type 0 where
  bearer license basic_email_password basic_token basic_license query_token : AuthKind
  raw : ℕ → AuthKind

-- TamgaClient
pub record Client : Type 0 where
  pub account_id : Bytes
  pub host : Bytes
  pub api_version : Bytes
  pub origin : Bytes
  pub base_url : Bytes
  pub timeout_ms : ℕ
  pub max_retries : ℕ
  pub auth_kind : AuthKind
  pub auth_primary : Option Bytes
  pub auth_secondary : Option Bytes
  pub auth_configured : Bool
  pub transport : Option Transport
  pub transport_is_default : Bool

-- TamgaResponse
pub record Reply : Type 0 where
  pub status : ℤ
  pub body : Option Bytes
  pub json : Option Json
  pub headers : List Header
  pub api_error_code : Option Bytes

-- TamgaPathScope
pub data PathScope : Type 0 where
  account origin : PathScope
