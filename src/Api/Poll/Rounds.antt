-- ===== src/Api/Poll/Rounds.antt =====
-- How the long poll ends.
use mathlib.Core.Path.{subst, sym}
use oplet.Execution.Queue.{next_task_rollback}
use oplet.Prelude.{
  refl, inl, inr, ℕ, suc, String, ◌≡◌, Option, Result, ok, err, leb→le, ◌<◌, ◌≤◌, zero, ◌+◌, ◌*◌,
  ◌∙◌, Bool-cases, Result-cases, leb, arith, ap, inl, inr,
}
use oplet.Store.Orm.{Error, record_not_found, failure}
use oplet.Store.Rows.{TaskExecution}
use oplet.Store.Session.{Database}
use oplet.Execution.Queue.{next_task_rollback}
use oplet.Execution.{next_task}
use oplet.Task.Label.Definition.{Definition}
use oplet.Api.{Answer, internal_error, no_content, task_assigned, some}
use oplet.Api.Environment.{Params}
use oplet.Api.Poll.{
  Round, Preloaded, task_response, poll, time_limit, handle_task_request, poll_interval, false,
}

module _ (rounds : ℕ → Round) where
  -- what the turn `i` reads from the queue
  abbrev pub reads : ℕ → Database → Result Error TaskExecution × Database
  reads i db = next_task (rounds i).gorm (rounds i).random (rounds i).now db

  reads-err :
      (i : ℕ) (db : Database) {x : Error} → (reads i db).0 ≡ err x → reads i db ≡ (err x, db)
  reads-err i db {x} e =
      let h : reads i db ≡ (err x, (reads i db).1) = rw (← e) refl in
      let back =
        next_task_rollback (rounds i).gorm (rounds i).random (rounds i).now db (reads i db).1 x h in
      h ∙ rw back refl

  -- the time that has passed when `n` turns are over
  abbrev pub spent : ℕ → ℕ
  spent zero = 0
  spent (suc n) = spent n + (rounds n).takes + poll_interval

  -- The first `n` turns were in time and found the queue empty; each changed nothing, and others
  -- then changed the tables.
  pub data Waited (db : Database) : ℕ → Database → Type 0 where
    arrived : Waited db 0 db
    waited :
        {n : ℕ} {before : Database}
        → Waited db n before
        → spent n < time_limit
        → reads n before ≡ (err record_not_found, before)
        → Waited db (suc n) ((rounds n).others before)

  module _ (preloaded : TaskExecution → Preloaded) (fetch : String → Result Error Definition)
      (parse : String → Option Params) where
    -- How the turn after `n` empty ones ends the poll.
    pub data Ended (n : ℕ) (before : Database) : Answer → Database → Type 0 where
      timed_out : time_limit ≤ spent n → Ended n before no_content before
      broken :
          (m : String)
          → spent n < time_limit
          → reads n before ≡ (err (failure m), before)
          → Ended n before internal_error before
      assigned :
          {after : Database} (e : TaskExecution)
          → spent n < time_limit
          → reads n before ≡ (ok e, after)
          → Ended n before (task_assigned (task_response preloaded fetch parse e)) after

    pub record Polled (db : Database) (result : Option (Answer × Database)) : Type 0 where
      pub turns : ℕ
      pub before : Database
      pub answered : Answer
      pub after : Database
      pub bounded : turns ≤ 10
      pub returned : result ≡ some (answered, after)
      pub waits : Waited db turns before
      pub ends : Ended turns before answered after

    poll-waits :
        (fuel n : ℕ) (before : Database)
        → leb time_limit (spent n) ≡ false
        → reads n before ≡ (err record_not_found, before)
        → poll preloaded fetch parse (suc fuel) rounds n (spent n) before
          ≡ poll preloaded fetch parse fuel rounds
              (suc n)
              (spent (suc n))
              ((rounds n).others before)
    unfolding poll
    poll-waits fuel n before early empty =
        rw
          (
            early,
            poll,
            ap (λ (o : Result Error TaskExecution × Database). o.0) empty,
            ap (λ (o : Result Error TaskExecution × Database). o.1) empty,
          )
          refl

    poll_lem :
        (fuel n : ℕ) (db before : Database)
        → fuel + n ≡ 11
        → n ≤ 10
        → poll_interval * n ≤ spent n
        → Waited db n before
        → Polled db (poll preloaded fetch parse fuel rounds n (spent n) before)
    unfolding poll
    poll_lem zero n db before e le slow w = absurd (omega arith)
    poll_lem (suc fuel) n db before e le slow w = elim (Bool-cases (leb time_limit (spent n))) [
      | inl late ↦ record {
        turns = n;
        before = before;
        answered = no_content;
        after = before;
        bounded = le;
        returned = rw (late, poll) refl;
        waits = w;
        ends = timed_out (leb→le time_limit (spent n) late);
      }
      | inr early ↦
          let in_time : spent n < time_limit = ground arith in
          elim (Result-cases (reads n before).0) [
            | inl (task, e0) ↦ record {
              turns = n;
              before = before;
              answered = task_assigned (task_response preloaded fetch parse task);
              after = (reads n before).1;
              bounded = le;
              returned = rw (early, poll, e0) refl;
              waits = w;
              ends = assigned task in_time (rw (← e0) refl);
            }
            | inr (failure m, e0) ↦ record {
              turns = n;
              before = before;
              answered = internal_error;
              after = (reads n before).1;
              bounded = le;
              returned = rw (early, poll, e0) refl;
              waits = w;
              ends =
                  subst (λ (d : Database). Ended n before internal_error d)
                    (sym (
                      ap (λ (o : Result Error TaskExecution × Database). o.1)
                        (reads-err n before e0)))
                    (broken m in_time (reads-err n before e0));
            }
            | inr (record_not_found, e0) ↦
                let empty : reads n before ≡ (err record_not_found, before) =
                  reads-err n before e0 in
                let next =
                  poll_lem fuel (suc n) db ((rounds n).others before) (omega arith) (omega arith)
                    (omega arith) (waited w in_time empty) in
                subst (λ (o : Option (Answer × Database)). Polled db o)
                  (sym (poll-waits fuel n before early empty)) next
          ]
    ]

    -- A runner's request for a task always gets an answer, after at most ten turns that sleep for
    -- three seconds: each of these turns found the queue empty within thirty seconds and changed
    -- nothing; the last turn found that thirty seconds were over (no content), or read the queue
    -- within thirty seconds and failed without a change (an internal error), or claimed an
    -- execution, which is the one that is answered.
    pub handle_task_request_total :
        (db : Database) → Polled db (handle_task_request preloaded fetch parse rounds db)
    unfolding handle_task_request
    handle_task_request_total db =
        poll_lem 11 0 db db (omega arith) (omega arith) (omega arith) arrived
