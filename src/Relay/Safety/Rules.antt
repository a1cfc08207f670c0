-- ===== src/Relay/Safety/Rules.antt =====
-- The invariant of a running method, and a rule for each primitive action.
use dropbox_governed_executi.Prelude.{
  String, ◌≡◌, refl, sym, subst, ◌∙◌, inl, inr, Bool-cases, Bool, true, false, List, ◌∷◌, arith,
  eq_refl, if◌then◌else◌,
}
use dropbox_governed_executi.Result.{Exc, Result, ok, err}
use dropbox_governed_executi.Json.{Value}
use dropbox_governed_executi.Platform.{Python}
use dropbox_governed_executi.Platform.{Bytes}
use dropbox_governed_executi.Contract.Types.{
  TrustedCorrelation, StageReceipt, AhcObservation, MohObservation, Ack,
}
use dropbox_governed_executi.Relay.State.{State, record_error}
use dropbox_governed_executi.Relay.History.{
  Call, Event, History, saved, status_written, fault, indexed, called, correlation_replied,
  stage_replied, ahc_replied, moh_replied, ack_replied, last_saved,
}
use dropbox_governed_executi.Relay.Exec.{
  Relay, Mem, Exec, lift, continue, ◌>>=◌, ◌>>◌, get_state, modify, save, status, now, fault_point,
  ask,
}
use dropbox_governed_executi.Relay.Effect.Ahc.{blocked}
use dropbox_governed_executi.Relay.Safety.Trace.{
  may_execute, needs_ahc, needs_terminal, is_execute, proven, begun, ended, latched, SaveOk, CallOk,
  EventOk, IsSafe,
}

-- `m` keeps `P`, whether it returns or raises.
abbrev pub Keeps {ℓ} : {A : Type ℓ} → (Mem → Type 0) → Exec A → Type 0
Keeps P m = (x : Mem) → P x → P (m x).1

module _ {ℓ} {A B : Type ℓ} {P : Mem → Type 0} where
  continue-Keeps :
      (found : Result A) (next : A → Exec B)
      → ((a : A) → found ≡ ok a → Keeps P (next a))
      → Keeps P (continue found next)
  continue-Keeps (err exc) next k = λ x h. h
  continue-Keeps (ok a) next k = k a refl

  pub Keeps-bind :
      (act : Exec A) (next : A → Exec B)
      → Keeps P act
      → ((a : A) → Keeps P (next a))
      → Keeps P (act >>= next)
  unfolding ◌>>=◌
  Keeps-bind act next ka kn x h = continue-Keeps (act x).0 next (λ a _. kn a) (act x).1 (ka x h)

  -- The rest of the method may use that the checked value is there.
  pub Keeps-lift-bind :
      (found : Result A) (next : A → Exec B)
      → ((a : A) → found ≡ ok a → Keeps P (next a))
      → Keeps P (lift found >>= next)
  unfolding ◌>>=◌
  Keeps-lift-bind found next k = continue-Keeps found next k

module _ {ℓ} {A : Type ℓ} {P : Mem → Type 0} where
  pub Keeps-if :
      (act other : Exec A) (test : Bool)
      → (test ≡ false → Keeps P other)
      → (test ≡ true → Keeps P act)
      → Keeps P (if test then act else other)
  Keeps-if act other false ko ka = ko refl
  Keeps-if act other true ko ka = ka refl

-- What is left to show of a method at one memory, after its first step.
module _ {B : Type 0} (Q : Mem → Type 0) (x : Mem) where
  pub after_get : (next : State → Exec B) → Q (next x.state x).1 → Q ((get_state >>= next) x).1
  unfolding ◌>>=◌ get_state
  after_get next q = q

  pub after_modify :
      (f : State → State) (next : Unit {0} → Exec B)
      → Q (next tt (record x { state = f x.state })).1
      → Q ((modify f >>= next) x).1
  unfolding ◌>>=◌ modify
  after_modify f next q = q

  pub after_now :
      (self : Relay) (next : String → Exec B)
      → ((t : String) → Q (next t x).1)
      → Q ((now self >>= next) x).1
  unfolding ◌>>=◌ now
  after_now self next q = q (self.utc x.history)

  -- A check that fails changes nothing, and what follows may use that it held.
  pub after_check :
      {A : Type 0} (r : Result A) (next : A → Exec B)
      → Q x
      → ((a : A) → r ≡ ok a → Q (next a x).1)
      → Q ((lift r >>= next) x).1
  unfolding ◌>>=◌
  after_check (ok a) next q k = k a refl
  after_check (err e) next q k = q

  -- The peer may answer anything.
  pub after_ask :
      {A : Type 0} (op : Call) (answer : History → Result A) (reply : String → Result A → Event)
      (next : Result A → Exec B)
      → ((r : Result A)
          → Q
              (next r (record x {
                history =
                    reply x.state.dger_request_id r ∷ called x.state.dger_request_id op ∷ x.history;
              })).1)
      → Q ((ask op answer reply >>= next) x).1
  unfolding ◌>>=◌ ask
  after_ask op answer reply next q = q (answer (called x.state.dger_request_id op ∷ x.history))

-- What a first step that keeps `P` leaves to show.
module _ {A B : Type 0} {P Q : Mem → Type 0} where
  continue_after :
      (r : Result A) (next : A → Exec B) (x : Mem)
      → ((y : Mem) → P y → Q y)
      → P x
      → ((a : A) (y : Mem) → P y → Q (next a y).1)
      → Q (continue r next x).1
  continue_after (ok a) next x weaken p k = k a x p
  continue_after (err e) next x weaken p k = weaken x p

  pub after_run :
      (act : Exec A) (next : A → Exec B) (x : Mem)
      → ((y : Mem) → P y → Q y)
      → P (act x).1
      → ((a : A) (y : Mem) → P y → Q (next a y).1)
      → Q ((act >>= next) x).1
  unfolding ◌>>=◌
  after_run act next x weaken p k = continue_after (act x).0 next (act x).1 weaken p k

pub never {ℓ} : {A : Type ℓ} (b : Bool) → b ≡ false → b ≡ true → A
never b f t = cc

-- Saving now would be in order, and all that has happened was.
pub record Inv ⦃py : Python⦄ (x : Mem) : Type 0 where
  pub safe : IsSafe x.history
  pub mem : SaveOk x.state.dger_request_id x.state x.history

-- A test that was true stays so, whatever is asked first.
pub stays_true : (b c : Bool) → c ≡ true → (if b then true else c) ≡ true
stays_true b c h = ground arith

module _ ⦃py : Python⦄ where
  -- A call of another peer method than `moh_execute` changes nothing that is known.
  proven-called :
      (rid j : String) (op : Call) (h : History)
      → is_execute op ≡ false
      → proven rid h ≡ true
      → proven rid (called j op ∷ h) ≡ true
  unfolding proven
  proven-called rid j op h e p = ground arith

  module _ (x : Mem) (i : Inv x) where
    called-Inv :
        (op : Call)
        → is_execute op ≡ false
        → CallOk x.state.dger_request_id op x.history
        → Inv (record x { history = called x.state.dger_request_id op ∷ x.history })
    unfolding begun ended latched last_saved
    called-Inv op e c = record {
      safe = (c, i.safe);
      mem = record {
        own = refl;
        latch = i.mem.latch;
        proof = λ p. proven-called _ _ op x.history e (i.mem.proof p);
        after_ahc = i.mem.after_ahc;
        after_end = i.mem.after_end;
      };
    }

    pub moh_replied-Inv :
        (j : String) (op : Call) (r : Result _)
        → Inv (record x { history = moh_replied j op r ∷ x.history })
    unfolding proven begun ended latched last_saved
    moh_replied-Inv j op r = record {
      safe = (tt, i.safe);
      mem = record {
        own = refl;
        latch = i.mem.latch;
        proof = λ p. stays_true _ _ (i.mem.proof p);
        after_ahc = i.mem.after_ahc;
        after_end = λ p. stays_true _ _ (i.mem.after_end p);
      };
    }

    ahc_replied-Inv :
        (j : String) (op : Call) (r : Result _)
        → Inv (record x { history = ahc_replied j op r ∷ x.history })
    unfolding proven begun ended latched last_saved
    ahc_replied-Inv j op r = record {
      safe = (tt, i.safe);
      mem = record {
        own = refl;
        latch = i.mem.latch;
        proof = i.mem.proof;
        after_ahc = λ p. stays_true _ _ (i.mem.after_ahc p);
        after_end = i.mem.after_end;
      };
    }

-- An event that none of the promises speaks of.
pub record Quiet ⦃py : Python⦄ (e : Event) : Type 0 where
  pub allowed : (h : History) → EventOk e h
  pub latched_same : (rid : String) (h : History) → latched rid (e ∷ h) ≡ latched rid h
  pub proven_same : (rid : String) (h : History) → proven rid (e ∷ h) ≡ proven rid h
  pub begun_same : (rid : String) (h : History) → begun rid (e ∷ h) ≡ begun rid h
  pub ended_same : (rid : String) (h : History) → ended rid (e ∷ h) ≡ ended rid h

module _ ⦃py : Python⦄ where
  pub Quiet-SaveOk :
      (e : Event)
      → Quiet e
      → (rid : String) (s : State) (h : History) → SaveOk rid s h
      → SaveOk rid s (e ∷ h)
  Quiet-SaveOk e q rid s h o = record {
    own = o.own;
    latch = λ p. o.latch (sym (q.latched_same rid h) ∙ p);
    proof = λ p. q.proven_same rid h ∙ o.proof p;
    after_ahc = λ p. q.begun_same rid h ∙ o.after_ahc p;
    after_end = λ p. q.ended_same rid h ∙ o.after_end p;
  }

  pub Quiet-Inv :
      (e : Event) → Quiet e → (x : Mem) → Inv x → Inv (record x { history = e ∷ x.history })
  Quiet-Inv e q x i = record {
    safe = (q.allowed x.history, i.safe);
    mem = Quiet-SaveOk e q x.state.dger_request_id x.state x.history i.mem;
  }

  pub status_written-Quiet :
      (j code t : String) (extra : List (String × Value)) → Quiet (status_written j code t extra)
  unfolding proven begun ended latched last_saved
  status_written-Quiet j code t extra = record {
    allowed = λ h. tt;
    latched_same = λ rid h. refl;
    proven_same = λ rid h. refl;
    begun_same = λ rid h. refl;
    ended_same = λ rid h. refl;
  }

  pub fault-Quiet : (name : String) → Quiet (fault name)
  unfolding proven begun ended latched last_saved
  fault-Quiet name = record {
    allowed = λ h. tt;
    latched_same = λ rid h. refl;
    proven_same = λ rid h. refl;
    begun_same = λ rid h. refl;
    ended_same = λ rid h. refl;
  }

  pub indexed-Quiet : (name : String) (raw : Bytes) → Quiet (indexed name raw)
  unfolding proven begun ended latched last_saved
  indexed-Quiet name raw = record {
    allowed = λ h. tt;
    latched_same = λ rid h. refl;
    proven_same = λ rid h. refl;
    begun_same = λ rid h. refl;
    ended_same = λ rid h. refl;
  }

  pub correlation_replied-Quiet :
      (j : String) (r : Result TrustedCorrelation) → Quiet (correlation_replied j r)
  unfolding proven begun ended latched last_saved
  correlation_replied-Quiet j r = record {
    allowed = λ h. tt;
    latched_same = λ rid h. refl;
    proven_same = λ rid h. refl;
    begun_same = λ rid h. refl;
    ended_same = λ rid h. refl;
  }

  pub stage_replied-Quiet : (j : String) (r : Result StageReceipt) → Quiet (stage_replied j r)
  unfolding proven begun ended latched last_saved
  stage_replied-Quiet j r = record {
    allowed = λ h. tt;
    latched_same = λ rid h. refl;
    proven_same = λ rid h. refl;
    begun_same = λ rid h. refl;
    ended_same = λ rid h. refl;
  }

  pub ack_replied-Quiet : (j : String) (op : Call) (r : Result Ack) → Quiet (ack_replied j op r)
  unfolding proven begun ended latched last_saved
  ack_replied-Quiet j op r = record {
    allowed = λ h. tt;
    latched_same = λ rid h. refl;
    proven_same = λ rid h. refl;
    begun_same = λ rid h. refl;
    ended_same = λ rid h. refl;
  }

  -- After a save the latch on disk is the latch in memory.
  pub latched-saved :
      (rid : String) (s : State) (h : History) → latched rid (saved rid s ∷ h) ≡ s.moh_in_doubt_ever
  unfolding latched last_saved
  latched-saved rid s h = rw eq_refl

  saved-Inv :
      (x : Mem)
      → Inv x
      → Inv (record x { history = saved x.state.dger_request_id x.state ∷ x.history })
  unfolding proven begun ended
  saved-Inv x i = record {
    safe = (i.mem, i.safe);
    mem = record {
      own = refl;
      latch = λ p. sym (latched-saved x.state.dger_request_id x.state x.history) ∙ p;
      proof = i.mem.proof;
      after_ahc = i.mem.after_ahc;
      after_end = i.mem.after_end;
    };
  }

  -- The rules for the primitive actions.
  pub Keeps-save : Keeps Inv save
  unfolding save
  Keeps-save x i = saved-Inv x i

  pub Keeps-get_state : Keeps Inv get_state
  unfolding get_state
  Keeps-get_state x i = i

  pub Keeps-now : (self : Relay) → Keeps Inv (now self)
  unfolding now
  Keeps-now self x i = i

  pub Keeps-fault_point : (self : Relay) (name : String) → Keeps Inv (fault_point self name)
  unfolding fault_point
  Keeps-fault_point self name x i = Quiet-Inv (fault name) (fault-Quiet name) x i

  pub Keeps-status :
      (self : Relay) (code : String) (extra : List (String × Value))
      → Keeps Inv (status self code extra)
  unfolding status
  Keeps-status self code extra x i =
      elim (Bool-cases (self.result_dir_unsafe x.history x.state.dger_request_id)) [
        | inl e ↦ rw e i
        | inr e ↦ rw e (Quiet-Inv _ (status_written-Quiet _ _ _ _) x i)
      ]

  pub Keeps-lift {ℓ} : {A : Type ℓ} (r : Result A) → Keeps Inv (lift r)
  Keeps-lift r x i = i

  -- A new dictionary that says no more than what is known.
  pub state-Inv :
      (t : State) (x : Mem)
      → Inv x
      → t.dger_request_id ≡ x.state.dger_request_id
      → (x.state.moh_in_doubt_ever ≡ true → t.moh_in_doubt_ever ≡ true)
      → (may_execute t ≡ true → proven x.state.dger_request_id x.history ≡ true)
      → (needs_ahc t.phase ≡ true → begun x.state.dger_request_id x.history ≡ true)
      → (needs_terminal t.phase ≡ true → ended x.state.dger_request_id x.history ≡ true)
      → Inv (record x { state = t })
  state-Inv t x i own latch proof after_ahc after_end = record {
    safe = i.safe;
    mem =
        subst (λ rid. SaveOk rid t x.history) (sym own)
          (record {
            own = own;
            latch = λ p. latch (i.mem.latch p);
            proof = proof;
            after_ahc = after_ahc;
            after_end = after_end;
          });
  }

  -- The error is recorded, and nothing else changes.
  pub Keeps-record_error :
      (place : String) (exc : Exc) → Keeps Inv (modify (record_error place exc))
  unfolding modify record_error
  Keeps-record_error place exc x i =
      state-Inv (record_error place exc x.state) x i refl (λ p. p) i.mem.proof i.mem.after_ahc
        i.mem.after_end

  pub Keeps-blocked :
      (self : Relay) (place code : String) (exc : Exc) → Keeps Inv (blocked self place code exc)
  unfolding blocked
  Keeps-blocked self place code exc =
      Keeps-bind (modify (record_error place exc)) _ (Keeps-record_error place exc)
        λ _. Keeps-bind save _ Keeps-save λ _. Keeps-status self code _

  -- The end of a method: save and publish, with or without a fault point.
  pub Keeps-saved_status :
      (self : Relay) (code : String) (extra : List (String × Value))
      → Keeps Inv (do save; status self code extra)
  Keeps-saved_status self code extra =
      Keeps-bind save _ Keeps-save λ _. Keeps-status self code extra

  pub Keeps-saved_status_fault :
      (self : Relay) (code name : String) (extra : List (String × Value))
      → Keeps Inv (do save; status self code extra; fault_point self name)
  Keeps-saved_status_fault self code name extra = Keeps-bind save _ Keeps-save λ _.
      Keeps-bind (status self code extra) _ (Keeps-status self code extra)
        λ _. Keeps-fault_point self name

  -- What the answer to a call leaves, for the calls whose answer proves nothing here.
  module _ (x : Mem) (i : Inv x) where
    pub asked_moh :
        (op : Call) (r : Result MohObservation)
        → is_execute op ≡ false
        → CallOk x.state.dger_request_id op x.history
        → Inv (record x {
          history =
              moh_replied x.state.dger_request_id op r
              ∷ called x.state.dger_request_id op
              ∷ x.history;
        })
    asked_moh op r e c =
        moh_replied-Inv (record x { history = called x.state.dger_request_id op ∷ x.history })
          (called-Inv x i op e c) x.state.dger_request_id op r

    pub asked_ahc :
        (op : Call) (r : Result AhcObservation)
        → is_execute op ≡ false
        → CallOk x.state.dger_request_id op x.history
        → Inv (record x {
          history =
              ahc_replied x.state.dger_request_id op r
              ∷ called x.state.dger_request_id op
              ∷ x.history;
        })
    asked_ahc op r e c =
        ahc_replied-Inv (record x { history = called x.state.dger_request_id op ∷ x.history })
          (called-Inv x i op e c) x.state.dger_request_id op r

    asked-Quiet :
        (e : Event) (op : Call)
        → Quiet e
        → is_execute op ≡ false
        → CallOk x.state.dger_request_id op x.history
        → Inv (record x { history = e ∷ called x.state.dger_request_id op ∷ x.history })
    asked-Quiet e op q n c =
        Quiet-Inv e q (record x { history = called x.state.dger_request_id op ∷ x.history })
          (called-Inv x i op n c)

    pub asked_ack :
        (op : Call) (r : Result Ack)
        → is_execute op ≡ false
        → CallOk x.state.dger_request_id op x.history
        → Inv (record x {
          history =
              ack_replied x.state.dger_request_id op r
              ∷ called x.state.dger_request_id op
              ∷ x.history;
        })
    asked_ack op r = asked-Quiet _ op (ack_replied-Quiet x.state.dger_request_id op r)

    pub asked_stage :
        (r : Result StageReceipt)
        → Inv (record x {
          history =
              stage_replied x.state.dger_request_id r
              ∷ called x.state.dger_request_id Call.stage_moh
              ∷ x.history;
        })
    asked_stage r =
        asked-Quiet _ Call.stage_moh (stage_replied-Quiet x.state.dger_request_id r) refl tt

    pub asked_correlation :
        (r : Result TrustedCorrelation)
        → Inv (record x {
          history =
              correlation_replied x.state.dger_request_id r
              ∷ called x.state.dger_request_id Call.establish_correlation
              ∷ x.history;
        })
    asked_correlation r =
        asked-Quiet _ Call.establish_correlation
          (correlation_replied-Quiet x.state.dger_request_id r) refl tt
