-- ===== src/Router/AnyMethod.antt =====
-- A route that is added for any method, as the dispatch treats it.
use mathlib.Core.Option
use saphir.Base.{
  ℕ, ◌≡◌, ◌≢◌, refl, sym, ap, ◌∙◌, Bool, true, false, List, ◌∷◌, Option, none, some, is_some,
  or_else, Result, ◌>>=◌, ok, ok-injective, >>=-eq-ok, arith, ==_refl,
}
use saphir.Base.Dict.{get, insert, get-insert, get-insert_self}
use saphir.Text.{Str, str_eq}
use saphir.Text.Laws.{str_key, str_eq_iff}
use saphir.Path.{PathMatcher, new_path}
use saphir.Http.{Method, is_any, any_method, Request}
use saphir.Guard.{GuardChain}
use saphir.Endpoint.{Endpoint, any, numbered, new_methods, new_endpoint, resolve_method}
use saphir.Router.{
  Handler, handler_key, handler_key_beq, RouterChain, end, link, handle, chain_dispatch,
  add_handler, Builder, register, route, resolve_from,
}
use saphir.Router.Chain.{found, chain_dispatch-found, found-add_handler_self}
use saphir.Router.Resolve.{fits_path, answer, first_match, outcome, resolve_from-outcome}

abbrev endpoint_of : {R : Type 0} → ℕ → PathMatcher R → Endpoint R
endpoint_of i matcher = record { id = i; path_matcher = matcher; methods = any (numbered i none) }

is_some-map : {A B : Type 0} (f : A → B) (o : Option A) → is_some (Option.map f o) ≡ is_some o
is_some-map f none = refl
is_some-map f (some x) = refl

module _ {R : Type 0} (compile : Str → Result R Str) where
  new_endpoint_any :
      (i : ℕ) (path : Str) {er : Endpoint R}
      → (new_endpoint compile i path any_method none).0 ≡ ok er
      → (matcher : PathMatcher R) × (er ≡ endpoint_of i matcher)
  unfolding new_endpoint new_methods is_any str_eq
  new_endpoint_any i path e =
      let (matcher, _, last) = >>=-eq-ok (new_path compile path) _ e in
      (matcher, sym (ok-injective last))

  -- A route for any method on a new path
  register_any :
      (i : ℕ) (path : Str) (resolver : List (Str × Endpoint R)) {j c : ℕ}
      {resolver' : List (Str × Endpoint R)}
      → get path resolver ≡ none
      → register compile i resolver path any_method none ≡ ok (j, resolver', c)
      → (matcher : PathMatcher R) × (j ≡ i)
        × (resolver' ≡ insert path (endpoint_of i matcher) resolver)
  unfolding register
  register_any i path resolver fresh made =
      let made' : ((new_endpoint compile i path any_method none).0 >>= λ er.
      ok (er.id, insert path er resolver, (new_endpoint compile i path any_method none).1))
          ≡ ok _ =
        sym (rw (fresh, register) refl) ∙ made in
      let (er, created, stored) =
        >>=-eq-ok (new_endpoint compile i path any_method none).0 _ made' in
      let (matcher, same) = new_endpoint_any i path created in
      (
        matcher,
        sym (ap (λ (x : ℕ × List (Str × Endpoint R) × ℕ). x.0) (ok-injective stored))
            ∙ ap (λ (x : Endpoint R). x.id) same,
        sym (ap (λ (x : ℕ × List (Str × Endpoint R) × ℕ). x.1) (ok-injective stored))
            ∙ ap (λ (x : Endpoint R). insert path x resolver) same,
      )

module _ {Resp : Type 0} where
  -- What is added for one method is not found for another.
  found-add_handler_other :
      (chain : RouterChain Resp) (i : ℕ) (m n : Method) (h : Handler Resp) (g : GuardChain Resp)
      → str_eq m n ≡ false
      → found (add_handler chain i m h g) i n ≡ found chain i n
  unfolding add_handler
  found-add_handler_other (end handlers) i m n h g other =
      get-insert (i, m) (i, n) (h, g) handlers ∙ rw (other, handler_key_beq, ==_refl i) refl
  found-add_handler_other (link handlers rest) i m n h g other =
      ap (or_else (get (i, n) handlers)) (found-add_handler_other rest i m n h g other)

module _ {R Resp : Type 0} (compile : Str → Result R Str) (is_match : R → Str → Bool) where
  -- A route that is added for any method, on a path that has none yet and under a number that has no
  -- handler for the method of a request: wherever the resolution comes to its endpoint with a path that
  -- fits, it takes the endpoint, whatever the method; but the dispatch then finds no handler, unless the
  -- method is itself `ANY`, for which it finds one.
  pub route-any_method :
      (i : ℕ) (path : Str) (h : Handler Resp) (g : GuardChain Resp) (b : Builder R Resp)
      {b' : Builder R Resp} {c : ℕ} (req : Request) (er : Endpoint R) (flag : Bool)
      (later : List (Endpoint R))
      → get path b.resolver ≡ none
      → chain_dispatch b.chain i req ≡ none
      → route compile i b path any_method h g ≡ ok (b', c)
      → get path b'.resolver ≡ some er
      → fits_path is_match req.path er ≡ true
      → req.method ≢ any_method
      → ((resolve_from is_match (er ∷ later) flag req).0 ≡ ok i)
        × (chain_dispatch b'.chain i req ≡ none)
        × (is_some (chain_dispatch b'.chain i (record req { method = any_method })) ≡ true)
  unfolding route resolve_method
  route-any_method i path h g b {b'} req er flag later fresh unused e kept fits n =
      let ((j, resolver, counter), made, last) =
        >>=-eq-ok (register compile i b.resolver path any_method none) _ e in
      let (matcher, number, map) = register_any compile i path b.resolver fresh made in
      let built : ◌≡◌ {A = Builder R Resp}
          (record { resolver = resolver; chain = add_handler b.chain j any_method h g }) b' =
        cc last in
      let stored : resolver ≡ b'.resolver = ap (λ (x : Builder R Resp). x.resolver) built in
      let chain : add_handler b.chain i any_method h g ≡ b'.chain =
        ap (λ (k : ℕ). add_handler b.chain k any_method h g) (sym number)
        ∙ ap (λ (x : Builder R Resp). x.chain) built in
      let mine : some (endpoint_of i matcher) ≡ some er =
        sym (get-insert_self path (endpoint_of i matcher) b.resolver)
        ∙ ap (get path) (sym map ∙ stored)
        ∙ kept in
      let same : endpoint_of i matcher ≡ er = cc mine in
      let other : str_eq any_method req.method ≡ false =
        ground (arith, str_eq_iff any_method req.method) in
      let fits' : fits_path is_match req.path (endpoint_of i matcher) ≡ true =
        ap (fits_path is_match req.path) same ∙ fits in
      (
        ap (λ (x : Endpoint R). (resolve_from is_match (x ∷ later) flag req).0) (sym same)
            ∙ resolve_from-outcome is_match (endpoint_of i matcher ∷ later) flag req
            ∙ rw (fits', outcome, first_match, answer) refl,
        ap (λ x. chain_dispatch x i req) (sym chain)
            ∙ chain_dispatch-found (add_handler b.chain i any_method h g) i req
            ∙ ap (Option.map (λ x. handle x req))
                (found-add_handler_other b.chain i any_method req.method h g other)
            ∙ sym (chain_dispatch-found b.chain i req)
            ∙ unused,
        ap (λ x. is_some (chain_dispatch x i (record req { method = any_method }))) (sym chain)
            ∙ ap is_some (
                chain_dispatch-found (add_handler b.chain i any_method h g) i
                  (record req { method = any_method }))
            ∙ is_some-map (λ x. handle x (record req { method = any_method }))
                (found (add_handler b.chain i any_method h g) i any_method)
            ∙ found-add_handler_self b.chain i any_method h g,
      )
