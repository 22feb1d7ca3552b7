-- ===== src/Handler/Port.antt =====
-- The calls that a server makes of the Handler interface of pkg/handler/Handler.go: a request is
-- answered at once, or after one call.
use sybline.Base.{String, Bool, Option, ◌⊎◌}
use sybline.Handler.Sending.{Context}
use sybline.Handler.Request.{Request}
use sybline.Handler.Reply.{Failure, Answer}

pub data Step (R : Type 0) : Type 0 where
  respond : R → Step R
  request : Context → Request → (Answer → R) → Step R
  login : (username password : String) → (Failure ⊎ String → R) → Step R
  log_out : Context → (Option Failure → R) → Step R
  ask_leader : (Failure ⊎ Bool → R) → Step R

-- A handler with its state.
pub record Methods (S : Type 0) : Type 0 where
  pub on_request : Context → Request → S → Answer × S
  pub on_login : (username password : String) → S → (Failure ⊎ String) × S
  pub on_log_out : Context → S → Option Failure × S
  pub on_ask_leader : S → Failure ⊎ Bool

unfoldable pub run : {S R : Type 0} → Methods S → Step R → S → R × S
run h (respond r) s = (r, s)
run h (request ctx q f) s = let (a, t) = h.on_request ctx q s in (f a, t)
run h (login username password f) s = let (a, t) = h.on_login username password s in (f a, t)
run h (log_out ctx f) s = let (a, t) = h.on_log_out ctx s in (f a, t)
run h (ask_leader f) s = (f (h.on_ask_leader s), s)

abbrev pub no_values : Context
no_values = record { username = Option.none; consumer_id = Option.none; token = Option.none }
