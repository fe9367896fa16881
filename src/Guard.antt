-- ===== src/Guard.antt =====
-- saphir/src/guard.rs: the guards before a handler. A guard is a function of the request; its
-- future is taken to its result.
pub mod Chain
use saphir.Base.{Bool, true, false, if◌then◌else◌, Result, ok, err}
use saphir.Http.{Request}

abbrev pub Guard : Type 0 → Type 0
Guard Resp = Request → Result Request Resp

pub data GuardChain (Resp : Type 0) : Type 0 where
  end : GuardChain Resp
  link : Guard Resp → GuardChain Resp → GuardChain Resp

module _ {Resp : Type 0} where
  -- `Builder::apply`: the new guard stands in front of those before it.
  unfoldable pub apply : GuardChain Resp → Guard Resp → GuardChain Resp
  apply chain handler = link handler chain

  unfoldable pub is_end : GuardChain Resp → Bool
  is_end end = true
  is_end (link _ _) = false

  unfoldable pub validate : GuardChain Resp → Request → Result Request Resp
  unfolding is_end
  validate end req = ok req
  validate (link handler rest) req = elim (handler req) [
    | ok req' ↦ if is_end rest then ok req' else validate rest req'
    | err resp ↦ err resp
  ]
