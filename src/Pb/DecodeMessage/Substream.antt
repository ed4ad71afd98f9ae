-- ===== src/Pb/DecodeMessage/Substream.antt =====
-- Work on the bytes of a length-delimited value, between `pb_make_string_substream` and
-- `pb_close_string_substream` of FLChat/Pods/nanopb/pb_decode.c.
use flchat.Base.{Bool, true, false, if◌then◌else◌}
use flchat.Pb.{Outcome, ok, err, stuck, ◌>>=◌, ◌>>◌}
use flchat.Pb.Decode.{pb_make_string_substream, pb_close_string_substream}
use flchat.Pb.DecodeField.{Work, Filler, on_stream}
use flchat.Pb.Istream.{Istream}

module _ {S : Type 0} where
  -- Closes the substream that the work is on, and goes on with the parent; the result is `status`.
  abbrev pub close_to : Istream S → Bool → Filler S (Unit {0})
  close_to parent status w =
      (on_stream (pb_close_string_substream w.stream) >> λ w'. if status then ok tt w' else err w')
        (record w { stream = parent })

  abbrev pub closing : Istream S → Outcome (Work S) (Unit {0}) → Outcome (Work S) (Unit {0})
  closing parent (ok _ w) = close_to parent true w
  closing parent (err w) = close_to parent false w
  closing parent stuck = stuck

  abbrev pub within : Filler S (Unit {0}) → Filler S (Unit {0})
  within f = on_stream pb_make_string_substream >>= λ substream w.
      closing w.stream (f (record w { stream = substream }))
