-- ===== src/Middleware.antt =====
-- saphir/src/middleware.rs: the rules of the middlewares and the chain of them. A middleware is a
-- function of the context and of the rest of the chain. Futures are taken to their results.
pub mod Around
use saphir.Base.{
  Bool, true, false, not, List, [], ◌∷◌, Option, none, some, if◌then◌else◌, Result, ok, err, any,
}
use saphir.Text.{Str}
use saphir.Path.{PathMatcher, new_path}
use saphir.Path.Match.{match_non_exhaustive}
use saphir.Http.{State, request, Context}
use saphir.Errors.{SaphirError, internal, stack}

pub record Rule (R : Type 0) : Type 0 where
  pub included_path : List (PathMatcher R)
  pub excluded_path : Option (List (PathMatcher R))

module _ {R : Type 0} (compile : Str → Result R Str) where
  -- The `filter_map`: a path that does not parse is logged and left out.
  unfoldable pub parse_paths : List Str → List (PathMatcher R)
  parse_paths [] = []
  parse_paths (p ∷ ps) =
      let rest = parse_paths ps in
      elim (new_path compile p) [ ok matcher ↦ matcher ∷ rest | err _ ↦ rest ]

  -- `Rule::new`
  unfoldable pub new_rule : List Str → Option (List Str) → Rule R
  new_rule include_path none = record {
    included_path = parse_paths include_path;
    excluded_path = none;
  }
  new_rule include_path (some ex) = record {
    included_path = parse_paths include_path;
    excluded_path = some (parse_paths ex);
  }

module _ {R : Type 0} (is_match : R → Str → Bool) where
  unfoldable pub validate_path : Rule R → Str → Bool
  validate_path rule path =
      if any (λ m_p. match_non_exhaustive is_match m_p path) rule.included_path
      then elim rule.excluded_path [
        | some excluded ↦ not (any (λ m_e_p. match_non_exhaustive is_match m_e_p path) excluded)
        | none ↦ true
      ]
      else false

module _ (R Response Router X : Type 0) where
  abbrev pub Answer : Type 0
  Answer = Result (Context Response Router) (SaphirError X)

  abbrev pub Middleware : Type 0
  Middleware = Context Response Router → (Context Response Router → Answer) → Answer

  pub data MiddlewareChain : Type 0 where
    end : MiddlewareChain
    link : Rule R → Middleware → MiddlewareChain → MiddlewareChain

module _ {R Response Router X : Type 0} (is_match : R → Str → Bool)
    (dispatch : Router → Context Response Router → Answer R Response Router X) where
  -- `ctx.state.request().filter(|req| self.rule.validate_path(req.uri().path())).is_some()`
  unfoldable pub rule_applies : Rule R → State Response → Bool
  rule_applies rule state = elim (request state) [
    | some req ↦ validate_path is_match rule req.path
    | none ↦ false
  ]

  -- `next` of the end of the chain: the router is taken out of the context.
  unfoldable pub next_end : Context Response Router → Answer R Response Router X
  next_end ctx = elim ctx.router [
    | some router ↦ dispatch router (record ctx { router = none })
    | none ↦ err (internal stack)
  ]

  unfoldable pub next :
      MiddlewareChain R Response Router X → Context Response Router → Answer R Response Router X
  next end ctx = next_end ctx
  next (link rule mid rest) ctx =
      let after_this = next rest in
      if rule_applies rule ctx.state then mid ctx after_this else after_this ctx

module _ {R Response Router X : Type 0} (compile : Str → Result R Str) where
  -- `Builder::apply`: the new middleware stands in front of those before it.
  unfoldable pub apply :
      Middleware R Response Router X
      → List Str
      → Option (List Str)
      → MiddlewareChain R Response Router X
      → MiddlewareChain R Response Router X
  apply mid include_path exclude_path chain =
      link (new_rule compile include_path exclude_path) mid chain
