-- ===== src/Relay/Promises.antt =====
-- What the relay promises of every run, whatever the peers answer and wherever it is cut off: the
-- point of src/dger/gen4_effect.py and src/dger/gen4_driver.py taken together.
use dropbox_governed_executi.Prelude.{
  String, ◌≡◌, ◌≢◌, ap, Bool, true, false, ◌&&◌, &&-true, some, List, [], ◌∷◌, ◌++◌, ◌==◌, eq_iff,
  eq_refl, Bool-cases, inl, inr,
}
use dropbox_governed_executi.Result.{Result}
use dropbox_governed_executi.Platform.{Bytes, Python}
use dropbox_governed_executi.Contract.Types.{AhcObservation, MohObservation}
use dropbox_governed_executi.Contract.Observations.{moh_safe, moh_terminal as terminal_states}
use dropbox_governed_executi.Relay.State.{State}
use dropbox_governed_executi.Relay.History.{
  Call, Event, History, saved, published, called, ahc_replied, moh_replied, last_saved,
}
use dropbox_governed_executi.Relay.Safety.Trace.{
  moh_answers, ahc_answers, is_execute, proven, begun, ended, latched, latch_of, IsWal, IsSafe,
  IsSafe-tail,
}
use dropbox_governed_executi.Relay.Safety.Reach.{Reach, Reach-IsSafe}

-- The calls that tell another owner of the end.
abbrev pub tells_end : Call → Bool
tells_end Call.ahc_accept_terminal = true
tells_end Call.chm_publish_terminal = true
tells_end _ = false

module _ ⦃py : Python⦄ where
  -- An answer of MOH about a request, with attested evidence and a state of the list.
  pub record HasMohAnswer (states : List String) (rid : String) (h : History) : Type 0 where
    pub newer : History
    pub older : History
    pub op : Call
    pub answer : Result MohObservation
    pub there : h ≡ newer ++ moh_replied rid op answer ∷ older
    pub says : moh_answers states op answer ≡ true

  pub record HasAhcAnswer (rid : String) (h : History) : Type 0 where
    pub newer : History
    pub older : History
    pub op : Call
    pub answer : Result AhcObservation
    pub there : h ≡ newer ++ ahc_replied rid op answer ∷ older
    pub says : ahc_answers op answer ≡ true

  later_moh :
      {states : List String} {rid : String} {h : History} (e : Event)
      → HasMohAnswer states rid h
      → HasMohAnswer states rid (e ∷ h)
  later_moh e a = record {
    newer = e ∷ a.newer;
    older = a.older;
    op = a.op;
    answer = a.answer;
    there = ap (λ t. e ∷ t) a.there;
    says = a.says;
  }

  later_ahc :
      {rid : String} {h : History} (e : Event) → HasAhcAnswer rid h → HasAhcAnswer rid (e ∷ h)
  later_ahc e a = record {
    newer = e ∷ a.newer;
    older = a.older;
    op = a.op;
    answer = a.answer;
    there = ap (λ t. e ∷ t) a.there;
    says = a.says;
  }

  ended-HasMohAnswer :
      (rid : String) (h : History) → ended rid h ≡ true → HasMohAnswer terminal_states rid h
  unfolding ended
  ended-HasMohAnswer rid [] p = cc
  ended-HasMohAnswer rid (moh_replied j op r ∷ h) p =
      elim (Bool-cases (j == rid && moh_answers terminal_states op r)) [
        | inl q ↦
            let both = &&-true _ _ q in
            record {
              newer = [];
              older = h;
              op = op;
              answer = r;
              there = rw ((eq_iff j rid).0 both.0);
              says = both.1;
            }
        | inr q ↦ later_moh _ (ended-HasMohAnswer rid h (rw q at p))
      ]
  ended-HasMohAnswer rid (e ∷ h) p = later_moh e (ended-HasMohAnswer rid h p)

  begun-HasAhcAnswer : (rid : String) (h : History) → begun rid h ≡ true → HasAhcAnswer rid h
  unfolding begun
  begun-HasAhcAnswer rid [] p = cc
  begun-HasAhcAnswer rid (ahc_replied j op r ∷ h) p =
      elim (Bool-cases (j == rid && ahc_answers op r)) [
        | inl q ↦
            let both = &&-true _ _ q in
            record {
              newer = [];
              older = h;
              op = op;
              answer = r;
              there = rw ((eq_iff j rid).0 both.0);
              says = both.1;
            }
        | inr q ↦ later_ahc _ (begun-HasAhcAnswer rid h (rw q at p))
      ]
  begun-HasAhcAnswer rid (e ∷ h) p = later_ahc e (begun-HasAhcAnswer rid h p)

  -- A proof that is newer than a call of `execute` is an answer after that call.
  proven-HasMohAnswer :
      (rid : String) (between older : History)
      → proven rid (between ++ (called rid Call.moh_execute ∷ older)) ≡ true
      → HasMohAnswer moh_safe rid between
  unfolding proven
  proven-HasMohAnswer rid [] older p = let q = rw eq_refl at p in cc q
  proven-HasMohAnswer rid (moh_replied j op r ∷ h) older p =
      elim (Bool-cases (j == rid && moh_answers moh_safe op r)) [
        | inl q ↦
            let both = &&-true _ _ q in
            record {
              newer = [];
              older = h;
              op = op;
              answer = r;
              there = rw ((eq_iff j rid).0 both.0);
              says = both.1;
            }
        | inr q ↦ later_moh _ (proven-HasMohAnswer rid h older (rw q at p))
      ]
  proven-HasMohAnswer rid (called j op ∷ h) older p =
      elim (Bool-cases (j == rid && is_execute op)) [
        | inl q ↦ let f = rw q at p in cc f
        | inr q ↦ later_moh _ (proven-HasMohAnswer rid h older (rw q at p))
      ]
  proven-HasMohAnswer rid (e ∷ h) older p = later_moh e (proven-HasMohAnswer rid h older p)

  -- The latch of a safe history stays.
  latched-append :
      (rid : String) (newer older : History)
      → IsSafe (newer ++ older)
      → latched rid older ≡ true
      → latched rid (newer ++ older) ≡ true
  unfolding latched last_saved
  latched-append rid [] older f l = l
  latched-append rid (saved j s ∷ h) older f l = elim (Bool-cases (j == rid)) [
    | inl q ↦
        let same : j ≡ rid = (eq_iff j rid).0 q in
        rw q (f.0.latch (rw same (latched-append rid h older f.1 l)))
    | inr q ↦ rw q (latched-append rid h older f.1 l)
  ]
  latched-append rid (e ∷ h) older f l = latched-append rid h older f.1 l

  -- The host is asked to execute a request for a second time only if it has said since the first
  -- time, with attested evidence, that it does not know the execution or has only admitted it. This
  -- holds across crashes and restarts, of any run with any peers.
  pub no_blind_repeat :
      (rid : String) (newer between older : History)
      → Reach (
          newer
          ++ (called rid Call.moh_execute ∷ (between ++ (called rid Call.moh_execute ∷ older))))
      → HasMohAnswer moh_safe rid between
  no_blind_repeat rid newer between older r =
      proven-HasMohAnswer rid between older (IsSafe-tail newer _ (Reach-IsSafe r)).0.proof

  -- When the host is asked to execute, the dictionary on disk says that the call may have happened,
  -- is not one from which `_advance` would go on to execute, and has no latch; and AHC has attested
  -- that it holds the effect in doubt.
  pub execute_justified :
      (rid : String) (newer older : History)
      → Reach (newer ++ called rid Call.moh_execute ∷ older)
      → ((s : State) × (last_saved rid older ≡ some s) × IsWal s) × HasAhcAnswer rid older
  execute_justified rid newer older r =
      let c = (IsSafe-tail newer _ (Reach-IsSafe r)).0 in
      (c.wal, begun-HasAhcAnswer rid older c.after_ahc)

  -- The durable latch is permanent: no later event of any run clears it, crashes included.
  pub latch_permanent :
      (rid : String) (newer older : History)
      → Reach (newer ++ older)
      → latched rid older ≡ true
      → latched rid (newer ++ older) ≡ true
  latch_permanent rid newer older r = latched-append rid newer older (Reach-IsSafe r)

  -- After the latch is durable, the host is never asked to execute that request again.
  pub latched_never_executes :
      (rid : String) (newer between older : History)
      → Reach (newer ++ (called rid Call.moh_execute ∷ (between ++ older)))
      → latched rid older ≢ true
  unfolding latched
  latched_never_executes rid newer between older r l =
      let f = IsSafe-tail newer _ (Reach-IsSafe r) in
      let (s, durable, wal) = f.0.wal in
      let later = latched-append rid between older f.1 l in
      let now : latch_of (some s) ≡ true = rw (← durable) later in cc (now, wal.unlatched)

  -- A result is published only after MOH has answered with attested evidence that the execution has
  -- ended.
  pub published_after_terminal :
      (rid : String) (raw : Bytes) (newer older : History)
      → Reach (newer ++ published rid raw ∷ older)
      → HasMohAnswer terminal_states rid older
  published_after_terminal rid raw newer older r =
      ended-HasMohAnswer rid older (IsSafe-tail newer _ (Reach-IsSafe r)).0

  -- AHC is asked to accept the end, and CHM to publish it, only after MOH has answered with attested
  -- evidence that the execution has ended.
  pub told_after_terminal :
      (rid : String) (op : Call) (newer older : History)
      → tells_end op ≡ true
      → Reach (newer ++ called rid op ∷ older)
      → HasMohAnswer terminal_states rid older
  told_after_terminal rid Call.ahc_accept_terminal newer older t r =
      ended-HasMohAnswer rid older (IsSafe-tail newer _ (Reach-IsSafe r)).0
  told_after_terminal rid Call.chm_publish_terminal newer older t r =
      ended-HasMohAnswer rid older (IsSafe-tail newer _ (Reach-IsSafe r)).0
  told_after_terminal rid op newer older t r = cc
