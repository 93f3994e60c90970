-- ===== src/DescriptorIo/Tests.antt =====
-- src/hlib_fdio.cpp at concrete inputs: a descriptor that takes three bytes at a time.
use hlib.Base.{
  ℕ, ◌≤◌, ◌≡◌, refl, sym, arith, true, false, Option, none, some, [], ◌∷◌, ◌++◌, ◌==◌, Bytes, codes,
  if◌then◌else◌, inl, inr, Option-cases, Bool-cases, ap, ◌∙◌, take, drop, take-append-drop,
}
use hlib.Buffer.{Allocator, empty_buffer, infinite_capacity, realloc}
use hlib.Buffer.Contents.{empty_buffer-IsValid}
use hlib.Buffer.Capacity.{is_null, resize, resize_by}
use hlib.Buffer.Edit.{overwrite}
use hlib.DescriptorIo.{
  System, replied, Io, Notice, goes_on, closes, enomem, write_from, update_events, send_front,
  receive,
}
use hlib.DescriptorIo.Closing.{
  Unwatching, IsReady, IsClosed, close-IsClosed, callback_and_close-IsClosed,
}
use hlib.DescriptorIo.Handling.{on_event, close, callback_and_close}
use hlib.DescriptorIo.Receiving.{Receives, receive-Receives}
use hlib.DescriptorIo.Sending.{Sends, send_front-Sends}
use hlib.DescriptorIo.Streaming.{starts, submits, is_writable, Streams, Runs-Streams}
use hlib.DescriptorIo.Draining.{Accepts, work, reports, Drained, reports-Drains}
use hlib.DescriptorIo.Queue.{Ends, Ends-map, pending, Transport, IsSource, IsArmed}
use hlib.EventLoop.{EventLoop, assign_entry, calls}
use hlib.EventLoop.Kernel.{Events, no_events, modifies, deletes}
use hlib.EventLoop.Sample.{World, small_epoll, control}
use hlib.File.{moved}
use hlib.Stream.{
  Sink, Source, available, is_empty, peek, consume, headroom_limited, produce, fill, full,
}
use hlib.Stream.Producing.{Ready}

abbrev system : System World
system = record {
  ioctl = λ fd w. (replied 2, w);
  read_call = λ fd n w. (moved (codes "ab"), w);
  write_call = λ fd bytes w. (moved (take 3 bytes), record w { output = w.output ++ take 3 bytes });
  close_call = λ fd w. w;
  fstat = λ fd w. some true;
  getsockopt = λ fd w. replied 0;
}

abbrev heap : Allocator
heap = record { grants = λ n. true; residue = λ i. 170 }

modify_output :
    (fd : ℕ) (events : Events) (w : World) → (control modifies fd events w).1.output ≡ w.output
modify_output fd events w = ground arith

granted :
    (fd : ℕ) (events wanted : Events) (w : World)
    → w.watched fd ≡ some wanted
    → (control modifies fd events w).0 ≡ none
granted fd events wanted w h = ground arith

transport : Transport small_epoll system
transport = record {
  output = λ fd w. w.output;
  wrote = λ fd bytes ys w h.
      (drop 3 bytes, rw (moved_bytes h) (sym (take-append-drop 3 bytes)), rw (moved_bytes h) refl);
  write_interest = λ fd bytes w k. refl;
  ioctl_interest = λ fd w k. refl;
  read_interest = λ fd n w k. refl;
  modify_output = modify_output;
  granted = granted;
}
  where
    moved_bytes : {xs ys : Bytes} → moved xs ≡ moved ys → ys ≡ xs
    moved_bytes h = cc h

abbrev looped : EventLoop ℕ
looped = record { interrupt = false; callbacks = λ k. none }

abbrev world : World
world = record { watched = λ k. some no_events; waits = []; output = [] }

abbrev io : Io ℕ ℕ World
io = record {
  fd = some 4;
  events = no_events;
  on_close = none;
  read_sink = none;
  read_callback = some 9;
  write_queue = [];
  loop = some looped;
  world = world;
}

io-IsArmed : IsArmed small_epoll 4 io
io-IsArmed = record { own = refl; sources = tt; armed = refl; watched = refl }

abbrev hello : Source
hello = record { bytes = codes "hello"; progress = 0 }

hello-IsSource : IsSource hello
hello-IsSource = record { within = omega arith; sized = omega arith }

abbrev writing : Events
writing = record no_events { writes = true }

abbrev asks : World
asks = record world { watched = λ k. if k == 4 then some writing else some no_events }

abbrev queued : Io ℕ ℕ World
queued = record io {
  events = writing;
  write_queue = record { source = hello; callback = some 7 } ∷ [];
  world = asks;
}

queues : write_from small_epoll hello (some 7) io ≡ some queued
unfolding write_from
queues = refl

abbrev half : Io ℕ ℕ World
half = record queued {
  write_queue = record { source = record hello { progress = 3 }; callback = some 7 } ∷ [];
  world = record asks { output = codes "hel" };
}

sends_half : send_front small_epoll system 4 queued.write_queue queued ≡ some (half, goes_on, none)
unfolding send_front available peek consume is_empty
sends_half = refl

Runs-Streams_example : Streams transport 4 io (codes "hello") half
Runs-Streams_example =
    Runs-Streams transport 4 io io-IsArmed
      (is_writable (submits hello (some 7) starts hello-IsSource queues) refl sends_half)

queued-IsArmed : IsArmed small_epoll 4 queued
queued-IsArmed = record { own = refl; sources = (hello-IsSource, tt); armed = refl; watched = refl }

send_front-Sends_example :
    Ends (Sends transport 4 queued) (send_front small_epoll system 4 queued.write_queue queued)
send_front-Sends_example = send_front-Sends transport 4 queued queued-IsArmed refl

-- a sink for eight bytes
abbrev sink : Sink
sink = record { maximum = 8; buffer = empty_buffer }

sink-Ready : Ready heap sink 2
sink-Ready = record {
  valid = empty_buffer-IsValid;
  bounded = omega arith;
  fits = omega arith;
  room = omega arith;
  granted = λ n h. refl;
}

abbrev reading : Io ℕ ℕ World
reading = record io { read_sink = some sink }

receive-Receives_example :
    Ends
      (Receives transport 4 reading sink (codes "ab"))
      (receive small_epoll system heap 4 (some sink) reading)
receive-Receives_example =
    receive-Receives transport 4 heap sink 2 sink-Ready reading b'a' (b'b' ∷ []) refl refl
      (omega arith) refl refl

-- At the end of a file a sink that has no block yet is taken for want of memory.
abbrev at_end : System World
at_end = record system { ioctl = λ fd w. (replied 0, w); read_call = λ fd n w. (moved [], w) }

abbrev unlimited : Sink
unlimited = record { maximum = infinite_capacity; buffer = empty_buffer }

end_of_file :
    receive small_epoll at_end heap 4 (some unlimited) reading
    ≡ some (record reading { read_sink = some unlimited }, closes enomem, none)
unfolding receive headroom_limited produce resize resize_by realloc
end_of_file = refl

-- A callback that closes the descriptor while it can also be written: the queue is empty then.
abbrev closes_all : Notice ℕ → Io ℕ ℕ World → Option (Io ℕ ℕ World)
closes_all notice this = some (record this { fd = none; write_queue = [] })

abbrev both : Io ℕ ℕ World
both = record queued { read_sink = some (record sink { maximum = 2 }) }

closed_by_callback :
    on_event small_epoll system heap closes_all 4 (record writing { reads = true }) both ≡ none
unfolding on_event update_events headroom_limited produce resize resize_by realloc fill full
    overwrite
closed_by_callback = refl

system-Accepts : Accepts system 4
system-Accepts [] w = ([], refl, inl refl)
system-Accepts (b ∷ bs) w = (take 3 (b ∷ bs), refl, inr (omega arith))

queued_work : work queued.write_queue ≤ 6
unfolding pending
queued_work = omega arith

reports-Drains_example : Ends (Drained transport 4 queued) (reports small_epoll system 4 6 queued)
reports-Drains_example =
    reports-Drains transport 4 system-Accepts 6 queued queued-IsArmed queued_work

-- a system in which epoll forgets a descriptor that is closed
abbrev forgetful : System World
forgetful = record system {
  close_call = λ fd w. record w { watched = assign_entry fd none w.watched };
}

removable :
    (fd : ℕ) (w : World)
    → is_null (w.watched fd) ≡ false
    → (control deletes fd no_events w).0 ≡ none
removable fd w h = elim (Option-cases (w.watched fd)) [
  | inl nothing ↦ absurd (cc (sym h ∙ ap is_null nothing))
  | inr (events, found) ↦ rw (found, control) refl
]

unwatching : Unwatching small_epoll forgetful
unwatching = record { removable = removable; unwatched = λ fd w k. refl }

-- a descriptor in the loop, with a close callback that closes it
abbrev opened : Io ℕ ℕ World
opened = record queued {
  on_close = some 2;
  loop = some (record looped { callbacks = assign_entry 4 (some (calls 1)) (λ k. none) });
  world = record asks { watched = assign_entry 4 (some writing) (λ k. none) };
}

opened-IsReady : IsReady small_epoll opened
opened-IsReady = inr (
  4,
  record {
    own = refl;
    entered = refl;
    agreed = λ k. elim (Bool-cases (k == 4)) [ inl e ↦ rw e refl | inr e ↦ rw e refl ];
  },
)

callback_and_close-IsClosed_example : Ends (IsClosed small_epoll) (
    callback_and_close small_epoll forgetful heap
      (λ notice. close small_epoll forgetful)
      104
      opened)
callback_and_close-IsClosed_example =
    callback_and_close-IsClosed unwatching heap (λ notice. close small_epoll forgetful)
      (λ notice this h.
        Ends-map (close small_epoll forgetful this) (λ after closed. inl closed)
          (close-IsClosed unwatching this h))
      104 opened opened-IsReady
