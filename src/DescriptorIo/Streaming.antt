-- ===== src/DescriptorIo/Streaming.antt =====
-- src/hlib_fdio.cpp: calls of `write` and reports that the descriptor can be written, in any order.
use hlib.Base.{
  ℕ, ◌≡◌, refl, ap, ap₂, ◌∙◌, sym, true, Option, some, [], ◌++◌, append_assoc, append-nil, Bytes,
}
use hlib.DescriptorIo.{System, Io, Notice, Way, goes_on, write_from, send_front}
use hlib.DescriptorIo.Sending.{Sends, breaks, sends, send_front-Sends}
use hlib.DescriptorIo.Queue.{Ends, Transport, IsSource, remaining, pending, IsArmed}
use hlib.DescriptorIo.Writing.{Queues, write_from-Queues}
use hlib.EventLoop.Kernel.{Epoll}
use hlib.Stream.{Source}

-- Any number of calls of `write` from any thread, and of locked write branches that do not fail, in any
-- order; the index is all that was given to `write`.
pub data Runs {C K W : Type 0} (epoll : Epoll W) (system : System W) (fd : ℕ) (first : Io C K W)
    : Bytes → Io C K W → Type 0 where
  starts : Runs epoll system fd first [] first
  submits :
      {given : Bytes} {before after : Io C K W} (source : Source) (callback : Option K)
      → Runs epoll system fd first given before
      → IsSource source
      → write_from epoll source callback before ≡ some after
      → Runs epoll system fd first (given ++ remaining source) after
  is_writable :
      {given : Bytes} {before after : Io C K W} {notice : Option (Notice K)}
      → Runs epoll system fd first given before
      → before.events.writes ≡ true
      → send_front epoll system fd before.write_queue before ≡ some (after, goes_on, notice)
      → Runs epoll system fd first given after

module _ {C K W : Type 0} {epoll : Epoll W} {system : System W} (t : Transport epoll system)
    (fd : ℕ) (first : Io C K W) where
  -- What has been sent and what is queued are, in order, what was at first and what was given.
  pub record Streams (given : Bytes) (after : Io C K W) : Type 0 where
    pub armed : IsArmed epoll fd after
    pub in_order :
        t.output fd after.world ++ pending after.write_queue
        ≡ (t.output fd first.world ++ pending first.write_queue) ++ given

  pub went_on :
      {before after : Io C K W} {way : Way} {notice : Option (Notice K)}
      → Sends t fd before (after, way, notice)
      → way ≡ goes_on
      → IsArmed epoll fd after
        × (t.output fd after.world ++ pending after.write_queue
            ≡ t.output fd before.world ++ pending before.write_queue)
  went_on (breaks e after same) h = absurd (cc h)
  went_on (sends after notice armed order told) h = (armed, order)

  -- However calls of `write` and reports of epoll follow each other, on an open descriptor: the bytes
  -- that have been sent, and then those still queued, are what was sent and queued at first and then the
  -- bytes of the sources in the order of the calls, with none lost, doubled or exchanged. The descriptor
  -- waits to write exactly while a source is queued, and epoll knows it if the loop is there.
  pub Runs-Streams :
      {given : Bytes} {after : Io C K W}
      → IsArmed epoll fd first
      → Runs epoll system fd first given after
      → Streams given after
  Runs-Streams v starts = record {
    armed = v;
    in_order = sym (append-nil (t.output fd first.world ++ pending first.write_queue));
  }
  Runs-Streams v (submits {given} {before} {after} source callback r s e) =
      let so_far = Runs-Streams v r in
      let ends : Ends (Queues t fd before source) (write_from epoll source callback before) =
        write_from-Queues t fd before source callback so_far.armed s in
      let q : Queues t fd before source after = rw e at ends in
      record {
        armed = q.armed;
        in_order =
            ap₂ (λ xs ys. xs ++ ys) q.same_output q.queued
            ∙ sym (
                append_assoc (t.output fd before.world) (pending before.write_queue)
                  (remaining source))
            ∙ ap (λ xs. xs ++ remaining source) so_far.in_order
            ∙ append_assoc (t.output fd first.world ++ pending first.write_queue) given
                (remaining source);
      }
  Runs-Streams v (is_writable {given} {before} {after} {notice} r writes e) =
      let so_far = Runs-Streams v r in
      let ends : Ends (Sends t fd before) (send_front epoll system fd before.write_queue before) =
        send_front-Sends t fd before so_far.armed writes in
      let s : Sends t fd before (after, goes_on, notice) = rw e at ends in
      let (armed, order) = went_on s refl in
      record { armed = armed; in_order = order ∙ so_far.in_order }
