-- ===== src/Tests/Services.antt =====
-- Middlewares, the server, redirections and bodies.
use saphir.Base.{
  ℕ, ◌≡◌, ◌↔◌, refl, ap, sym, true, List, [], ◌∷◌, map, reverse, none, some, Option, err, length,
  if◌then◌else◌, Result, ok, ok-injective, ◌>>=◌, arith,
}
use saphir.Text.{contains_char, Str, codes, str_eq}
use saphir.Path.{simple}
use saphir.Http.{Request, not_found, before, set_after, Context}
use saphir.Errors.{SaphirError}
use saphir.Router.{Router, end}
use saphir.Middleware.{Rule, Answer, Middleware, next, next_end}
use saphir.Middleware
use saphir.Middleware.Around.{
  Layer, path_of, chain_of, KeepsPath, run_all, applicable, next-chain_of,
}
use saphir.Server.{
  poll_shutdown, enter, invoke_with_timeout, fetch_add, Stack, call, call_with_timeout,
}
use saphir.Server.Shutdown.{
  Load, arrives, expires, Reachable, start, steps, poll_shutdown_iff, call_with_timeout-count,
}
use saphir.Redirect.{Builder, Redirect}
use saphir.Body.{Bytes, raw, memory, load, unmade, Body, is_zero}
use saphir.Body.Drain.{drain, drain-load}
use saphir.Body.Http.{from_inner}
use saphir.Body.Load.{gather, load-gather}
use saphir.Server.Listener.{file_data}
use saphir.Server.Ssl.{extract_der_data, load_certs, load_private_key}
use saphir.Server.Ssl.Blocks.{Block, with_marks, decode_all, extract_der_data-with_marks}
use saphir.Server.Ssl.Spaces.{load-without_spaces}
use saphir.Multipart.{save, already_consumed}
use saphir.Multipart.Save.{all_bytes, save-all_bytes}

abbrev compile : Str → Result Str Str
compile r = ok r

abbrev Ctx : Type 0
Ctx = Context ℕ ℕ

abbrev answer_with : ℕ → Ctx → Answer Str ℕ ℕ Unit
answer_with status ctx = ok (set_after ctx status)

abbrev everywhere : Rule Str
everywhere = record { included_path = simple [] ∷ []; excluded_path = none }

abbrev logger : Layer str_eq answer_with
logger = record { rule = everywhere; work = λ ctx. ok ctx; finish = λ ctx. ok ctx }

logger-KeepsPath : KeepsPath str_eq answer_with logger
logger-KeepsPath ctx ctx' e =
    ap (λ (c : Ctx). path_of str_eq answer_with c.state) (sym (ok-injective e))

abbrev arrived : Ctx
arrived = record {
  state = before (record { method = codes "GET"; path = codes "/"; headers = []; captures = [] });
  metadata = not_found;
  router = some 200;
}

next-chain_of_example :
    next str_eq answer_with (chain_of str_eq answer_with (logger ∷ [])) arrived ≡ (
      (run_all str_eq answer_with
          (map Layer.work (applicable str_eq answer_with arrived.state (logger ∷ [])))
          arrived
        >>= next_end str_eq answer_with)
      >>= run_all str_eq answer_with
          (reverse (map Layer.finish (applicable str_eq answer_with arrived.state (logger ∷ [])))))
next-chain_of_example =
    next-chain_of str_eq answer_with (logger ∷ []) arrived (logger-KeepsPath, tt)

abbrev to_nothing : Router Str ℕ → Context ℕ (Router Str ℕ) → Answer Str ℕ (Router Str ℕ) Unit
to_nothing r ctx = ok (set_after ctx 404)

abbrev as_500 : SaphirError Unit → Context ℕ (Router Str ℕ) → Result ℕ (SaphirError Unit)
as_500 e ctx = ok 500

abbrev bare : Stack str_eq to_nothing as_500
bare = record {
  router = record { resolvers = []; chain = end [] };
  middlewares = Middleware.MiddlewareChain.end;
}

abbrev ping : Request
ping = record { method = codes "GET"; path = codes "/"; headers = []; captures = [] }

abbrev after_timeout : Load
after_timeout = record { count = 1; working = 0; lost = 1 }

after_timeout_reachable : Reachable str_eq to_nothing as_500 after_timeout
unfolding enter invoke_with_timeout
after_timeout_reachable =
    steps (steps start (arrives (record { count = 0; working = 0; lost = 0 })))
      (expires bare ping (record { count = 1; working = 1; lost = 0 }) 0 refl)

poll_shutdown_iff_example :
    ((poll_shutdown true true true after_timeout.count).0 ≡ true)
    ↔ ((after_timeout.working ≡ 0) × (after_timeout.lost ≡ 0))
poll_shutdown_iff_example =
    poll_shutdown_iff str_eq to_nothing as_500 true true after_timeout_reachable (omega arith)

call_with_timeout-count_example :
    ((call str_eq to_nothing as_500 (λ r. r) (λ r. ok r) bare ping 0).1 ≡ 0)
    × ((call_with_timeout str_eq to_nothing as_500 (λ r. r) (λ r. ok r) true bare ping 0).1
        ≡ (if true then fetch_add 0 else 0))
call_with_timeout-count_example =
    call_with_timeout-count str_eq to_nothing as_500 (λ r. r) (λ r. ok r) true bare ping 0
      (omega arith)

abbrev see_other : Builder Str ℕ
see_other = record {
  status = 303;
  location = some (codes "/next");
  query = some (ok (codes "a=1"));
  fragment = none;
  form_data = none;
  content = none;
  content_type = none;
  extra_headers = [];
  cookies = none;
}

abbrev seen_other : Redirect Str ℕ
seen_other = record {
  status = 303;
  location = some (codes "/next?a=1");
  content = none;
  content_type = none;
  extra_headers = [];
  cookies = none;
}

abbrev chunks : List (Result Bytes (SaphirError Unit))
chunks = ok (1 ∷ 2 ∷ []) ∷ ok (3 ∷ 4 ∷ []) ∷ ok (5 ∷ []) ∷ []

load-gather_example :
    load (some 3) (raw chunks) ≡ (if is_zero (some 3) then ok [] else gather (some 3) [] chunks)
load-gather_example = load-gather (some 3) chunks

drain-load_example :
    (drain 4 [] (from_inner (raw chunks)) ≡ some (load none (raw chunks)))
    × ((polls : ℕ) (byte : ℕ) (b : Bytes)
        → drain {X = Unit} polls [] (from_inner (memory (byte ∷ b))) ≡ none)
drain-load_example = drain-load chunks

abbrev fresh_body : Body Unit
fresh_body = record { inner = some (raw chunks); fut = unmade }

abbrev as_bytes : Bytes → Result (Bytes × Bytes) (SaphirError Unit)
as_bytes b = ok (b, b)

abbrev decoded : Str → Option Str
decoded s = some s

abbrev two_blocks : List Block
two_blocks =
    record { before = codes "a"; content = codes "QUJD" }
    ∷ record { before = []; content = codes "REVG" }
    ∷ []

extract_der_data-with_marks_example :
    extract_der_data decoded
      (with_marks (codes "-B-") (codes "-E-") two_blocks (codes "z"))
      (codes "-B-")
      (codes "-E-")
    ≡ decode_all decoded two_blocks
unfolding contains_char
extract_der_data-with_marks_example =
    extract_der_data-with_marks decoded b'-' (codes "B-") (codes "E-") two_blocks (codes "z")
      ((refl, refl), ((refl, refl), tt)) refl

abbrev no_file : Str → Option (List Str)
no_file s = none

-- A certificate as the documentation gives it
load-without_spaces_example :
    (load_certs decoded no_file
        (file_data (codes "-----BEGINCERTIFICATE-----QUJD-----ENDCERTIFICATE-----"))
      ≡ some [])
    × (load_private_key decoded no_file no_file
          (file_data (codes "-----BEGINCERTIFICATE-----QUJD-----ENDCERTIFICATE-----"))
        ≡ none)
unfolding contains_char
load-without_spaces_example =
    load-without_spaces decoded no_file no_file no_file
      (codes "-----BEGINCERTIFICATE-----QUJD-----ENDCERTIFICATE-----") refl

abbrev parts : ℕ → List Bytes
parts n = (n ∷ 2 ∷ []) ∷ (3 ∷ []) ∷ []

save-all_bytes_example :
    (save {X = ℕ} (λ r. map ok (parts r)) none (λ _. none) (record { raw = some 7 })
      ≡ (ok (length (all_bytes (parts 7))), some (all_bytes (parts 7)), record { raw = none }))
    × ((save {X = ℕ}
          (λ r. map ok (parts r))
          (some 9)
          (λ _. none)
          (save {X = ℕ} (λ r. map ok (parts r)) none (λ _. none) (record { raw = some 7 })).2).0
        ≡ err already_consumed)
save-all_bytes_example = save-all_bytes parts 7 (some 9)
