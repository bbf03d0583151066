-- ===== src/Output/Lifecycle/Safe.antt =====
-- The sections of the lifecycle calls keep what must hold between any two sections.
use michi_music_stream.Prelude.{◌≡◌, Bool, true, false, not, ◌&&◌, ◌||◌, ◌==◌, arith, if-both}
use michi_music_stream.Output.Control.{OutputState, is_running, is_quiesced}
use michi_music_stream.Output.Lifecycle.{
  Stage, idle, initializing, start_admitted, start_enabled, start_flagged, start_created,
  start_failed, stop_reaping, stop_joining, stop_waiting, deleting, freeing, System, InitAnswers,
  is_stopping, init_begin, init_end, start_begin, start_enable, start_flags, start_create,
  start_undo, start_publish, stop_begin, init_released, ready, quarantined,
}
use michi_music_stream.Output.Lifecycle.Stop.{
  stop_reap, stop_disable, stop_join, deinit_begin, deinit_delete, deinit_free,
}
use michi_music_stream.Output.Lifecycle.Steps.{
  Event, init, start, stop, deinit, answered, go_on, lifecycle_step,
}

abbrev pub implies : Bool → Bool → Bool
implies a b = not a || b

abbrev pub is_releasing : Stage → Bool
is_releasing deleting = true
is_releasing freeing = true
is_releasing _ = false

-- Start or stop is at work on the resources.
abbrev pub is_working : Stage → Bool
is_working idle = false
is_working initializing = false
is_working deleting = false
is_working freeing = false
is_working _ = true

-- No worker is there.
abbrev pub is_lone : Stage → Bool
is_lone idle = false
is_lone start_created = false
is_lone stop_joining = false
is_lone stop_waiting = false
is_lone _ = true

abbrev pub is_initializing : Stage → Bool
is_initializing initializing = true
is_initializing _ = false

abbrev pub is_creating : Stage → Bool
is_creating start_created = true
is_creating _ = false

abbrev pub is_flagged : Stage → Bool
is_flagged start_flagged = true
is_flagged _ = false

abbrev pub is_active : OutputState → Bool
is_active s = is_running s || is_quiesced s || is_stopping s

-- The pipeline is set up and nobody releases it.
abbrev pub live : System → Bool
live s = s.pipe.inited && not s.pipe.channel_delete_failed && not (is_releasing s.stage)

abbrev pub owned : System → Bool
owned s = s.tx && s.ring_buf && s.semaphores

-- What holds between any two sections.
abbrev pub is_safe : System → Bool
is_safe s =
    implies (live s) (owned s)
    && implies (is_active s.pipe.state) (live s)
    && implies (not (s.pipe.write_inflight == 0)) (live s)
    && implies (not (s.pipe.control_inflight == 0)) (live s)
    && implies s.worker (live s && not s.pipe.task_done && (s.pipe.task || is_creating s.stage))
    && implies (is_working s.stage) (live s)
    && implies s.pipe.channel_enabled (live s)
    && implies (is_lone s.stage) (not s.worker)
    && implies (is_flagged s.stage) (not s.pipe.task_done)
    && implies (is_initializing s.stage) (not s.pipe.inited)

init_end-Safe :
    (a : InitAnswers) (s : System)
    → is_safe (record s { stage = initializing }) ≡ true
    → is_safe (init_end a (record s { stage = initializing })) ≡ true
unfolding init_end init_released ready quarantined
init_end-Safe a s v =
    let Kept : System → Type 0 = λ t. is_safe t ≡ true in
    let released : Kept (init_released (record s { stage = initializing })) = ground (arith, v) in
    if-both Kept (not a.ring_ok) (ground (arith, v)) (
      if-both Kept (not a.channel_ok) released (
        if-both Kept a.setup_ok (ground (arith, v))
          (if-both Kept a.deleted released (ground (arith, v)))))

init_begin-Safe :
    (s : System)
    → is_safe (record s { stage = idle }) ≡ true
    → is_safe (init_begin (record s { stage = idle })) ≡ true
unfolding init_begin
init_begin-Safe s v = ground (arith, v)

start_begin-Safe :
    (s : System)
    → is_safe (record s { stage = idle }) ≡ true
    → is_safe (start_begin (record s { stage = idle })) ≡ true
unfolding start_begin
start_begin-Safe s v = ground (arith, v)

stop_begin-Safe :
    (s : System)
    → is_safe (record s { stage = idle }) ≡ true
    → is_safe (stop_begin (record s { stage = idle })) ≡ true
unfolding stop_begin
stop_begin-Safe s v = ground (arith, v)

deinit_begin-Safe :
    (s : System)
    → is_safe (record s { stage = idle }) ≡ true
    → is_safe (deinit_begin (record s { stage = idle })) ≡ true
unfolding deinit_begin
deinit_begin-Safe s v = ground (arith, v)

start_enable-Safe :
    (ok : Bool) (s : System)
    → is_safe (record s { stage = start_admitted }) ≡ true
    → is_safe (start_enable ok (record s { stage = start_admitted })) ≡ true
unfolding start_enable
start_enable-Safe ok s v = ground (arith, v)

start_flags-Safe :
    (s : System)
    → is_safe (record s { stage = start_enabled }) ≡ true
    → is_safe (start_flags (record s { stage = start_enabled })) ≡ true
unfolding start_flags
start_flags-Safe s v = ground (arith, v)

start_create-Safe :
    (ok : Bool) (s : System)
    → is_safe (record s { stage = start_flagged }) ≡ true
    → is_safe (start_create ok (record s { stage = start_flagged })) ≡ true
unfolding start_create
start_create-Safe ok s v = ground (arith, v)

start_publish-Safe :
    (s : System)
    → is_safe (record s { stage = start_created }) ≡ true
    → is_safe (start_publish (record s { stage = start_created })) ≡ true
unfolding start_publish
start_publish-Safe s v = ground (arith, v)

start_undo-Safe :
    (ok : Bool) (s : System)
    → is_safe (record s { stage = start_failed }) ≡ true
    → is_safe (start_undo ok (record s { stage = start_failed })) ≡ true
unfolding start_undo
start_undo-Safe ok s v = ground (arith, v)

stop_reap-Safe :
    (ok : Bool) (s : System)
    → is_safe (record s { stage = stop_reaping }) ≡ true
    → is_safe (stop_reap ok (record s { stage = stop_reaping })) ≡ true
unfolding stop_reap
stop_reap-Safe ok s v = ground (arith, v)

stop_disable-Safe :
    (ok : Bool) (s : System)
    → is_safe (record s { stage = stop_joining }) ≡ true
    → is_safe (stop_disable ok (record s { stage = stop_joining })) ≡ true
unfolding stop_disable
stop_disable-Safe ok s v = ground (arith, v)

stop_join-Safe :
    (late : Bool) (s : System)
    → is_safe (record s { stage = stop_waiting }) ≡ true
    → is_safe (stop_join late (record s { stage = stop_waiting })) ≡ true
unfolding stop_join
stop_join-Safe late s v = ground (arith, v)

deinit_delete-Safe :
    (ok : Bool) (s : System)
    → is_safe (record s { stage = deleting }) ≡ true
    → is_safe (deinit_delete ok (record s { stage = deleting })) ≡ true
unfolding deinit_delete
deinit_delete-Safe ok s v = ground (arith, v)

deinit_free-Safe :
    (s : System)
    → is_safe (record s { stage = freeing }) ≡ true
    → is_safe (deinit_free (record s { stage = freeing })) ≡ true
unfolding deinit_free
deinit_free-Safe s v = ground (arith, v)

pub lifecycle_step-Safe :
    (e : Event) (g : Stage) (s : System)
    → is_safe (record s { stage = g }) ≡ true
    → is_safe (lifecycle_step e g (record s { stage = g })) ≡ true
unfolding lifecycle_step
lifecycle_step-Safe init idle s v = init_begin-Safe s v
lifecycle_step-Safe start idle s v = start_begin-Safe s v
lifecycle_step-Safe stop idle s v = stop_begin-Safe s v
lifecycle_step-Safe deinit idle s v = deinit_begin-Safe s v
lifecycle_step-Safe (answered a) initializing s v = init_end-Safe a s v
lifecycle_step-Safe (go_on ok) start_admitted s v = start_enable-Safe ok s v
lifecycle_step-Safe (go_on ok) start_enabled s v = start_flags-Safe s v
lifecycle_step-Safe (go_on ok) start_flagged s v = start_create-Safe ok s v
lifecycle_step-Safe (go_on ok) start_created s v = start_publish-Safe s v
lifecycle_step-Safe (go_on ok) start_failed s v = start_undo-Safe ok s v
lifecycle_step-Safe (go_on ok) stop_reaping s v = stop_reap-Safe ok s v
lifecycle_step-Safe (go_on ok) stop_joining s v = stop_disable-Safe ok s v
lifecycle_step-Safe (go_on ok) stop_waiting s v = stop_join-Safe (not ok) s v
lifecycle_step-Safe (go_on ok) deleting s v = deinit_delete-Safe ok s v
lifecycle_step-Safe (go_on ok) freeing s v = deinit_free-Safe s v
lifecycle_step-Safe _ _ s v = v
