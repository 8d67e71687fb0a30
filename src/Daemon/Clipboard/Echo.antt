-- ===== src/Daemon/Clipboard/Echo.antt =====
-- A text that came from a peer is not sent back to the peers.
use lanclip.Base.{◌+◌, ◌<◌, ◌≡◌, ok, [], arith, Text, ℕ, Option}
use lanclip.Sync.{Suppressor, add}
use lanclip.Sync.Echo.{consume-add}
use lanclip.Daemon.Conns.{Registry}
use lanclip.Daemon.Clipboard.{InboundClipboard, Turn, broadcast, write_clipboard}

-- Once clipboardWriteLoop has written a text, the event that reports this text, if it comes before the
-- time to live is over, is sent to no peer, whatever connections there are by then.
pub no_echo :
    (sum : Text → Text) (t : Turn) (next : InboundClipboard) (before after : Registry)
    (s : Suppressor) (max now : ℕ) (id : Option Text)
    → t.written ≡ ok tt
    → now < t.add_time + s.ttl
    → (broadcast sum max now id next.text after (write_clipboard sum t next before s).1).1 ≡ []
unfolding broadcast write_clipboard
no_echo sum t next before after s max now id w h =
    let s' = add sum t.prune_time t.add_time next.event_id next.text s in
    rw w (ground (arith, consume-add sum t.prune_time t.add_time now next.event_id next.text s h))
