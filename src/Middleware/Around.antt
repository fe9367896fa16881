-- ===== src/Middleware/Around.antt =====
-- The order in which the middlewares run.
use mathlib.Core.List.{reverse-cons}
use saphir.Base.{
  ◌≡◌, refl, ap, sym, ◌∙◌, Bool, false, not, ◌&&◌, List, map, reverse, [], ◌∷◌, ◌++◌, Option, none,
  some, if◌then◌else◌, Result, ok, err, ◌>>=◌, any, arith, Bool-cases, inl, inr, All,
}
use saphir.Text.{Str}
use saphir.Path.{new_path}
use saphir.Path.Match.{match_non_exhaustive}
use saphir.Http.{State, before, after, empty, request, Context}
use saphir.Middleware.{
  Rule, parse_paths, new_rule, validate_path, Answer, Middleware, MiddlewareChain, end, link,
  rule_applies, next_end, next,
}

module _ {R : Type 0} (compile : Str → Result R Str) (is_match : R → Str → Bool) where
  -- A path of a rule covers the path of a request. One that does not parse covers none.
  abbrev pub covers : Str → Str → Bool
  covers path p = elim (new_path compile p) [
    | ok matcher ↦ match_non_exhaustive is_match matcher path
    | err _ ↦ false
  ]

  any-parse_paths :
      (ps : List Str) (path : Str)
      → any (λ m. match_non_exhaustive is_match m path) (parse_paths compile ps)
        ≡ any (covers path) ps
  unfolding parse_paths
  any-parse_paths [] path = refl
  any-parse_paths (p ∷ ps) path = ground (arith, any-parse_paths ps path)

  abbrev pub excludes : Option (List Str) → Str → Bool
  excludes none path = false
  excludes (some ex) path = any (covers path) ex

  -- A rule holds for the paths that some included path covers and no excluded one does.
  pub validate_path-new_rule :
      (include_path : List Str) (exclude_path : Option (List Str)) (path : Str)
      → validate_path is_match (new_rule compile include_path exclude_path) path
        ≡ (any (covers path) include_path && not (excludes exclude_path path))
  unfolding validate_path new_rule
  validate_path-new_rule include_path none path = ground (arith, any-parse_paths include_path path)
  validate_path-new_rule include_path (some ex) path =
      ground (arith, any-parse_paths include_path path, any-parse_paths ex path)

module _ {R Response Router X : Type 0} (is_match : R → Str → Bool)
    (dispatch : Router → Context Response Router → Answer R Response Router X) where
  abbrev Work : Type 0
  Work = Context Response Router → Answer R Response Router X

  -- A middleware that works on the context, calls the rest of the chain once, and works on what
  -- that returns.
  abbrev pub around : Work → Work → Middleware R Response Router X
  around work finish ctx rest = work ctx >>= λ ctx'. rest ctx' >>= finish

  pub record Layer : Type 0 where
    pub rule : Rule R
    pub work : Work
    pub finish : Work

  abbrev pub chain_of : List Layer → MiddlewareChain R Response Router X
  chain_of [] = end
  chain_of (l ∷ ls) = link l.rule (around l.work l.finish) (chain_of ls)

  -- The path of the request, where there is one.
  abbrev pub path_of : State Response → Option Str
  path_of (before req) = some req.path
  path_of (after _) = none
  path_of empty = none

  -- The first work leaves a context whose request has the same path.
  abbrev pub KeepsPath : Layer → Type 0
  KeepsPath l =
      (ctx ctx' : Context Response Router)
      → l.work ctx ≡ ok ctx'
      → path_of ctx'.state ≡ path_of ctx.state

  abbrev pub run_all : List Work → Work
  run_all [] ctx = ok ctx
  run_all (f ∷ fs) ctx = f ctx >>= run_all fs

  -- The layers whose rule holds for the path.
  abbrev pub applicable : State Response → List Layer → List Layer
  applicable state [] = []
  applicable state (l ∷ ls) =
      let rest = applicable state ls in
      if rule_applies is_match dispatch l.rule state then l ∷ rest else rest

  rule_applies_of_path :
      (rule : Rule R) (s t : State Response)
      → path_of s ≡ path_of t
      → rule_applies is_match dispatch rule s ≡ rule_applies is_match dispatch rule t
  unfolding rule_applies request
  rule_applies_of_path rule (before x) (before y) e = ground arith
  rule_applies_of_path rule (before x) (after y) e = ground arith
  rule_applies_of_path rule (before x) empty e = ground arith
  rule_applies_of_path rule (after x) (before y) e = ground arith
  rule_applies_of_path rule (after x) (after y) e = refl
  rule_applies_of_path rule (after x) empty e = refl
  rule_applies_of_path rule empty (before y) e = ground arith
  rule_applies_of_path rule empty (after y) e = refl
  rule_applies_of_path rule empty empty e = refl

  applicable_of_path :
      (ls : List Layer) (s t : State Response)
      → path_of s ≡ path_of t
      → applicable s ls ≡ applicable t ls
  applicable_of_path [] s t e = refl
  applicable_of_path (l ∷ ls) s t e =
      ground (arith, rule_applies_of_path l.rule s t e, applicable_of_path ls s t e)

  >>=-ok : (r : Answer R Response Router X) → (r >>= λ ctx. ok ctx) ≡ r
  >>=-ok (ok ctx) = refl
  >>=-ok (err e) = refl

  run_all-append :
      (fs : List Work) (g : Work) (r : Answer R Response Router X)
      → (r >>= run_all (fs ++ g ∷ [])) ≡ ((r >>= run_all fs) >>= g)
  run_all-append fs g (err e) = refl
  run_all-append [] g (ok ctx) = >>=-ok (g ctx)
  run_all-append (f ∷ fs) g (ok ctx) = run_all-append fs g (f ctx)

  around-wraps :
      (rest : Work) (ws fs : List Work) (finish : Work) (r : Answer R Response Router X)
      → ((ctx : Context Response Router)
          → r ≡ ok ctx
          → rest ctx ≡ ((run_all ws ctx >>= next_end is_match dispatch) >>= run_all (reverse fs)))
      → (r >>= λ ctx. rest ctx >>= finish)
        ≡ (((r >>= run_all ws) >>= next_end is_match dispatch) >>= run_all (reverse (finish ∷ fs)))
  around-wraps rest ws fs finish (err e) h = refl
  around-wraps rest ws fs finish (ok ctx) h =
      ap (λ r. r >>= finish) (h ctx refl)
      ∙ sym (run_all-append (reverse fs) finish (run_all ws ctx >>= next_end is_match dispatch))
      ∙ ap (λ gs. (run_all ws ctx >>= next_end is_match dispatch) >>= run_all gs)
          (sym (reverse-cons finish fs))

  -- Of middlewares that keep the path, those whose rule holds work in the order of the chain, then the
  -- router dispatches, and then they finish in the opposite order; an error skips all that is left.
  pub next-chain_of :
      (ls : List Layer) (ctx : Context Response Router)
      → All KeepsPath ls
      → next is_match dispatch (chain_of ls) ctx ≡ (
          (run_all (map Layer.work (applicable ctx.state ls)) ctx >>= next_end is_match dispatch)
          >>= run_all (reverse (map Layer.finish (applicable ctx.state ls))))
  unfolding next
  next-chain_of [] ctx h = sym (>>=-ok (next_end is_match dispatch ctx))
  next-chain_of (l ∷ ls) ctx (h, hs) =
      elim (Bool-cases (rule_applies is_match dispatch l.rule ctx.state)) [
        | inr e ↦ rw e (next-chain_of ls ctx hs)
        | inl e ↦ rw e (
            around-wraps (next is_match dispatch (chain_of ls))
              (map Layer.work (applicable ctx.state ls))
              (map Layer.finish (applicable ctx.state ls)) l.finish (l.work ctx)
              (λ ctx' made.
                next-chain_of ls ctx' hs
                ∙ ap
                    (λ (ms : List Layer).
                      (run_all (map Layer.work ms) ctx' >>= next_end is_match dispatch)
                      >>= run_all (reverse (map Layer.finish ms)))
                    (applicable_of_path ls ctx'.state ctx.state (h ctx ctx' made))))
      ]
