-- ===== src/Tests/Table.antt =====
-- The socket table, resets and closes on the small connection.
use mini_tls.Prelude.{ℕ, ◌+◌, ◌*◌, ◌/◌, ◌≡◌, refl, true, false, none, some, List, [], ◌∷◌, arith}
use mini_tls.Tcp.Dispatch.Closing.{Closes, four_way_close}
use mini_tls.Tcp.Dispatch.Resets.{handle_pure_ack_wrapped, retransmit_segment_closed}
use mini_tls.Tcp.Send.{Floats, handle_pure_ack, retransmit_segment}
use mini_tls.Tcp.Table.{Socket, Stack, connected, listening, new_entry, table_match}
use mini_tls.Tcp.Table.Matching.{Found, table_match_lem}
use mini_tls.Tcp.Types.{
  Conn, Entry, RetransEntry, TcpFields, closed, flag_fin_ack, flag_rst, listen, rto_init, running,
}
use mini_tls.Tcp.Writer.Fin.{Idle}
use mini_tls.Tests.Data.{small}

abbrev listening_entry : Entry
listening_entry = record new_entry { local_port = 80; state = listen; socket_id = 0 }

-- A listener on port 80 and a connection of port 40000.
abbrev table : List (ℕ × Socket)
table = (0, listening listening_entry) ∷ (1, connected none small) ∷ []

abbrev stack : Stack
stack = record {
  socket_map = table;
  listeners =
      (0, record { port = 80; conn_chan = []; accepting_conns = true; chan_closed = false }) ∷ [];
  next_id = 2;
  send_requests = [];
}

abbrev reset_to : ℕ → ℕ → TcpFields
reset_to src dst = record {
  src_port = src;
  dst_port = dst;
  seq_num = 0;
  ack_num = 0;
  flags = flag_rst;
  window_size = 0;
}

abbrev floats : Floats
floats = record {
  smooth = λ srtt rtt. (85 * srtt + 15 * rtt) / 100;
  stretch = λ srtt. 165 * srtt / 100;
}

table_match_lem_example : Found 80 20 40000 10 table none (table_match 80 20 40000 10 table none)
table_match_lem_example = table_match_lem 80 20 40000 10 table

small-Idle : Idle small
small-Idle = record {
  acked = refl;
  written = refl;
  word = omega arith;
  in_step = refl;
  quiet = refl;
  queue = record { bounded = omega arith; armed = tt };
  up = refl;
}

four_way_close_example : Closes floats 9 small small
four_way_close_example =
    four_way_close floats 9 small small small-Idle small-Idle refl refl refl refl

abbrev worn_out : RetransEntry
worn_out = record {
  seq_num = 101;
  len = 0;
  flags = flag_fin_ack;
  sent = 0;
  retransmitted = true;
  num_retransmits = 4;
}

abbrev unanswered : Conn
unanswered = record small {
  retrans_queue = record (small.retrans_queue) { array = worn_out ∷ []; timer = running rto_init };
}

retransmit_segment_closed_example :
    (unanswered.retrans_queue.timer ≡ running rto_init)
    × (retransmit_segment (record unanswered {
      torn_down = true;
      entry = record (unanswered.entry) { state = closed; removed = true };
    })
        ≡ none)
retransmit_segment_closed_example =
    retransmit_segment_closed unanswered
      (record unanswered {
        torn_down = true;
        entry = record (unanswered.entry) { state = closed; removed = true };
      })
      rto_init worn_out [] refl refl refl (omega arith)

abbrev wrapped : Conn
wrapped = record small { send_buf = record (small.send_buf) { una = 4294967290; nxt = 5 } }

handle_pure_ack_wrapped_example :
    (c' : Conn) × (handle_pure_ack floats 0 wrapped (reset_to 80 40000) ≡ some c')
    × (c'.send_buf.una ≡ 4294967290)
    × (c'.send_buf.nxt ≡ 5)
    × (c'.send_buf.c_buf ≡ wrapped.send_buf.c_buf)
    × (c'.retrans_queue ≡ wrapped.retrans_queue)
handle_pure_ack_wrapped_example =
    handle_pure_ack_wrapped floats 0 wrapped (reset_to 80 40000) (omega arith) refl
