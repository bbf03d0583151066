-- ===== src/Output/Lifecycle/Owned.antt =====
-- No resource of the output pipeline is freed while another task may use it.
use michi_music_stream.Prelude.{
  ◌≡◌, refl, Bool, true, not, ◌&&◌, ◌||◌, List, [], ◌∷◌, ◌==◌, arith, if-split,
}
use michi_music_stream.Output.Lifecycle.{Stage, System}
use michi_music_stream.Output.Lifecycle.Steps.{
  Event, step, run_events, power_on, lifecycle_step, caller_step,
}
use michi_music_stream.Output.Lifecycle.Safe.{
  implies, is_releasing, is_working, is_lone, is_initializing, is_creating, is_flagged, is_active,
  live, owned, is_safe, lifecycle_step-Safe,
}
use michi_music_stream.Output.Lifecycle.Callers.{caller_step-Safe, worker_step-Safe}

step-Safe : (e : Event) (s : System) → is_safe s ≡ true → is_safe (step e s) ≡ true
unfolding step
step-Safe e s v =
    let s1 = lifecycle_step e s.stage s in
    let s2 = record s1 { pipe = caller_step e s1.pipe } in
    let v2 = caller_step-Safe e s1 (lifecycle_step-Safe e s.stage s v) in
    if-split (λ (t : System). is_safe t ≡ true) s2.worker (λ w. worker_step-Safe e s2 w v2)
      (λ _. v2)

run_events-Safe :
    (es : List Event) (s : System) → is_safe s ≡ true → is_safe (run_events es s) ≡ true
unfolding run_events
run_events-Safe [] s v = v
run_events-Safe (e ∷ es) s v = run_events-Safe es (step e s) (step-Safe e s v)

-- What is used is there: a producer has the ring, a control caller has the semaphores, a worker and
-- an active state have everything, and an enabled channel exists. While deinit releases them nobody
-- is inside, and a worker is created only where there is none.
pub record IsOwned (s : System) : Type 0 where
  pub producer : (s.pipe.write_inflight == 0 || s.ring_buf) ≡ true
  pub caller : (s.pipe.control_inflight == 0 || s.semaphores) ≡ true
  pub worker : implies s.worker (owned s) ≡ true
  pub active : implies (is_active s.pipe.state) (owned s) ≡ true
  pub enabled : implies s.pipe.channel_enabled s.tx ≡ true
  pub released :
      implies
        (is_releasing s.stage)
        (s.pipe.write_inflight == 0 && s.pipe.control_inflight == 0 && not s.worker)
      ≡ true
  pub created : implies (is_flagged s.stage) (not s.worker) ≡ true

-- The conjuncts of `is_safe`.
conjuncts :
    (a b c d e f g h i j : Bool)
    → a && b && c && d && e && f && g && h && i && j ≡ true
    → (a ≡ true)
      × (b ≡ true)
      × (c ≡ true)
      × (d ≡ true)
      × (e ≡ true)
      × (f ≡ true)
      × (g ≡ true)
      × (h ≡ true)
      × (i ≡ true)
      × (j ≡ true)
conjuncts a b c d e f g h i j v = (
  ground (arith, v),
  ground (arith, v),
  ground (arith, v),
  ground (arith, v),
  ground (arith, v),
  ground (arith, v),
  ground (arith, v),
  ground (arith, v),
  ground (arith, v),
  ground (arith, v),
)

implies_trans : (x l o : Bool) → implies x l ≡ true → implies l o ≡ true → implies x o ≡ true
implies_trans x l o h k = ground (arith, h, k)

module _ (t r m : Bool) where
  has_ring : (z : Bool) → implies (not z) (t && r && m) ≡ true → (z || r) ≡ true
  has_ring z h = ground (arith, h)

  has_semaphores : (z : Bool) → implies (not z) (t && r && m) ≡ true → (z || m) ≡ true
  has_semaphores z h = ground (arith, h)

  has_channel : (x : Bool) → implies x (t && r && m) ≡ true → implies x t ≡ true
  has_channel x h = ground (arith, h)

-- Who is inside keeps the pipeline live.
nobody_inside :
    (rel i d wz cz wk : Bool)
    → implies (not wz) (i && not d && not rel) ≡ true
    → implies (not cz) (i && not d && not rel) ≡ true
    → implies wk (i && not d && not rel) ≡ true
    → implies rel (wz && cz && not wk) ≡ true
nobody_inside rel i d wz cz wk a b c = ground (arith, a, b, c)

flagged_lone :
    (g : Stage) (wk : Bool)
    → implies (is_lone g) (not wk) ≡ true
    → implies (is_flagged g) (not wk) ≡ true
flagged_lone g wk h = ground (arith, h)

first_implied : (x a b c : Bool) → implies x (a && b && c) ≡ true → implies x a ≡ true
first_implied x a b c h = ground (arith, h)

Safe-IsOwned : (s : System) → is_safe s ≡ true → IsOwned s
Safe-IsOwned s v =
    let p = s.pipe in
    let inside = live s in
    let all = owned s in
    let (there, active, producing, controlling, working, _, enabled, lone, _, _) =
      conjuncts (implies inside all) (implies (is_active p.state) inside)
        (implies (not (p.write_inflight == 0)) inside)
        (implies (not (p.control_inflight == 0)) inside)
        (implies s.worker (inside && not p.task_done && (p.task || is_creating s.stage)))
        (implies (is_working s.stage) inside) (implies p.channel_enabled inside)
        (implies (is_lone s.stage) (not s.worker)) (implies (is_flagged s.stage) (not p.task_done))
        (implies (is_initializing s.stage) (not p.inited)) v in
    let worker_live : implies s.worker inside ≡ true =
      first_implied s.worker inside (not p.task_done) (p.task || is_creating s.stage) working in
    record {
      producer =
          has_ring s.tx s.ring_buf s.semaphores (p.write_inflight == 0)
            (implies_trans (not (p.write_inflight == 0)) inside all producing there);
      caller =
          has_semaphores s.tx s.ring_buf s.semaphores (p.control_inflight == 0)
            (implies_trans (not (p.control_inflight == 0)) inside all controlling there);
      worker = implies_trans s.worker inside all worker_live there;
      active = implies_trans (is_active p.state) inside all active there;
      enabled =
          has_channel s.tx s.ring_buf s.semaphores p.channel_enabled
            (implies_trans p.channel_enabled inside all enabled there);
      released =
          nobody_inside (is_releasing s.stage) p.inited p.channel_delete_failed
            (p.write_inflight == 0) (p.control_inflight == 0) s.worker producing controlling
            worker_live;
      created = flagged_lone s.stage s.worker lone;
    }

-- From power-on, in any interleaving of init, start, stop and deinit with producers, control callers
-- and the worker, and whatever the driver, the allocator and the scheduler answer: the ring is there
-- while a producer is inside, the semaphores while a control caller is, the channel, the ring and the
-- semaphores while a worker runs or the state is RUNNING, QUIESCED or STOPPING, and the channel while
-- it is enabled; deinit releases them only when nobody is inside; and start creates a worker only
-- where there is none.
pub run_events-IsOwned : (es : List Event) → IsOwned (run_events es power_on)
unfolding power_on
run_events-IsOwned es = Safe-IsOwned _ (run_events-Safe es power_on refl)
