-- ===== src/Router/Chain.antt =====
-- The handlers that a chain finds.
use mathlib.Core.Option
use saphir.Base.{ℕ, ◌≡◌, true, Option, or_else, is_some, arith, ==_refl}
use saphir.Base.Dict.{get, get-insert, insert}
use saphir.Text.Laws.{str_eq_refl}
use saphir.Http.{Method, Request}
use saphir.Guard.{GuardChain}
use saphir.Router.{
  Handler, Handlers, handler_key, RouterChain, end, link, handle, chain_dispatch, add_handler,
}

module _ {Resp : Type 0} where
  -- The first handler of that key, from the controllers added last to the plain routes.
  abbrev pub found : RouterChain Resp → ℕ → Method → Option (Handler Resp × GuardChain Resp)
  found (end handlers) i m = get (i, m) handlers
  found (link handlers rest) i m = or_else (get (i, m) handlers) (found rest i m)

  -- `chain_dispatch` runs what is found.
  pub chain_dispatch-found :
      (chain : RouterChain Resp) (i : ℕ) (req : Request)
      → chain_dispatch chain i req ≡ Option.map (λ h. handle h req) (found chain i req.method)
  unfolding chain_dispatch
  chain_dispatch-found (end handlers) i req = ground arith
  chain_dispatch-found (link handlers rest) i req = ground (arith, chain_dispatch-found rest i req)

  -- What is found stays found when a handler is added.
  pub found-insert :
      (handlers : Handlers Resp) (i j : ℕ) (m n : Method) (h : Handler Resp × GuardChain Resp)
      → is_some (get (j, n) handlers) ≡ true
      → is_some (get (j, n) (insert (i, m) h handlers)) ≡ true
  found-insert handlers i j m n h e = ground (arith, get-insert (i, m) (j, n) h handlers)

  pub found-insert_self :
      (handlers : Handlers Resp) (i : ℕ) (m : Method) (h : Handler Resp × GuardChain Resp)
      → is_some (get (i, m) (insert (i, m) h handlers)) ≡ true
  found-insert_self handlers i m h =
      ground (arith, get-insert (i, m) (i, m) h handlers, ==_refl i, str_eq_refl m)

  pub found-add_handler :
      (chain : RouterChain Resp) (i j : ℕ) (m n : Method) (h : Handler Resp) (g : GuardChain Resp)
      → is_some (found chain j n) ≡ true
      → is_some (found (add_handler chain i m h g) j n) ≡ true
  unfolding add_handler
  found-add_handler (end handlers) i j m n h g e = found-insert handlers i j m n (h, g) e
  found-add_handler (link handlers rest) i j m n h g e =
      ground (arith, found-add_handler rest i j m n h g)

  pub found-add_handler_self :
      (chain : RouterChain Resp) (i : ℕ) (m : Method) (h : Handler Resp) (g : GuardChain Resp)
      → is_some (found (add_handler chain i m h g) i m) ≡ true
  unfolding add_handler
  found-add_handler_self (end handlers) i m h g = found-insert_self handlers i m (h, g)
  found-add_handler_self (link handlers rest) i m h g =
      ground (arith, found-add_handler_self rest i m h g)

  pub found-link :
      (handlers : Handlers Resp) (chain : RouterChain Resp) (i : ℕ) (m : Method)
      → is_some (found chain i m) ≡ true
      → is_some (found (link handlers chain) i m) ≡ true
  found-link handlers chain i m e = ground arith

  pub found-link_own :
      (handlers : Handlers Resp) (chain : RouterChain Resp) (i : ℕ) (m : Method)
      → is_some (get (i, m) handlers) ≡ true
      → is_some (found (link handlers chain) i m) ≡ true
  found-link_own handlers chain i m e = ground arith

  pub found-link_insert :
      (handlers : Handlers Resp) (chain : RouterChain Resp) (i j : ℕ) (m n : Method)
      (h : Handler Resp × GuardChain Resp)
      → is_some (found (link handlers chain) j n) ≡ true
      → is_some (found (link (insert (i, m) h handlers) chain) j n) ≡ true
  found-link_insert handlers chain i j m n h e = ground (arith, found-insert handlers i j m n h)
