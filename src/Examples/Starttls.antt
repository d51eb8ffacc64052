-- ===== src/Examples/Starttls.antt =====
-- The STARTTLS dialogues on a mail server that offers TLS, and on one that floods.
use certel.Prelude.{
  ◌+◌, ◌≤◌, ◌≡◌, refl, arith, true, ◌&&◌, List, [], ◌∷◌, ◌++◌, if◌then◌else◌, length,
}
use certel.Prelude.Text.{Text, eq_text, codes, contains_text, has_prefix, join_texts}
use certel.Probe.Starttls.Wire.{Conn, max_starttls_bytes, failed, done, unsupported}
use certel.Probe.Starttls.Dialogue.{
  starttls, starttls_smtp, to_upper, trim_line_end, ehlo_command, starttls_command,
  read_smtp_response,
}
use certel.Probe.Starttls.Commands.{commands_of, starttls-frugal, starttls-commands}
use certel.Probe.Starttls.Replies.{
  Reply, IsReply, wire, wire_lines, after, reply_code, reply_text, says, offers_starttls,
  read_smtp_response-wire, starttls_smtp-verdict,
}

abbrev greeting : Reply
greeting = record { continued = []; final = codes "220 mx" }

abbrev capabilities : Reply
capabilities = record { continued = codes "250-mx" ∷ []; final = codes "250 StartTLS" }

abbrev go_ahead : Reply
go_ahead = record { continued = []; final = codes "220 go" }

greeting-IsReply : IsReply greeting
unfolding trim_line_end
greeting-IsReply = record {
  lines = tt;
  ends = record {
    one = (refl, (refl, (refl, (refl, (refl, (refl, tt))))));
    trimmed = refl;
    kind = refl;
  };
  has_code = omega arith;
  few = omega arith;
}

go_ahead-IsReply : IsReply go_ahead
unfolding trim_line_end
go_ahead-IsReply = record {
  lines = tt;
  ends = record {
    one = (refl, (refl, (refl, (refl, (refl, (refl, tt))))));
    trimmed = refl;
    kind = refl;
  };
  has_code = omega arith;
  few = omega arith;
}

capabilities-IsReply : IsReply capabilities
unfolding trim_line_end
capabilities-IsReply = record {
  lines = (
    record {
      one = (refl, (refl, (refl, (refl, (refl, (refl, tt))))));
      trimmed = refl;
      kind = refl;
    },
    tt,
  );
  ends = record {
    one = (
      refl,
      (refl, (refl, (refl, (refl, (refl, (refl, (refl, (refl, (refl, (refl, (refl, tt))))))))))),
    );
    trimmed = refl;
    kind = refl;
  };
  has_code = omega arith;
  few = omega arith;
}

abbrev mail_server : Conn
mail_server = record {
  unread = wire greeting ++ (wire capabilities ++ (wire go_ahead ++ []));
  budget = max_starttls_bytes;
  writable = 2;
  sent = [];
}

read_smtp_response-wire_example : read_smtp_response mail_server ≡ (
  after mail_server (length (wire greeting)) (wire capabilities ++ (wire go_ahead ++ [])),
  done (reply_code greeting, reply_text greeting),
)
unfolding wire_lines
read_smtp_response-wire_example =
    read_smtp_response-wire greeting (wire capabilities ++ (wire go_ahead ++ [])) mail_server
      greeting-IsReply refl (omega arith)

starttls_smtp-verdict_example :
    ((starttls_smtp mail_server).1 ≡ (
      if offers_starttls capabilities && says go_ahead "220" then done tt else failed unsupported))
    × ((starttls_smtp mail_server).0.sent
        ≡ []
          ++ (ehlo_command ∷ (if offers_starttls capabilities then starttls_command ∷ [] else [])))
unfolding wire_lines eq_text
starttls_smtp-verdict_example =
    starttls_smtp-verdict greeting capabilities go_ahead [] mail_server greeting-IsReply
      capabilities-IsReply go_ahead-IsReply refl (omega arith) (omega arith) refl refl

-- The capabilities are matched whatever their case is.
offered_test : offers_starttls capabilities ≡ true
unfolding contains_text to_upper has_prefix join_texts
offered_test = refl

starttls-frugal_example :
    length mail_server.unread ≤ length (starttls "smtp" mail_server).0.unread + max_starttls_bytes
starttls-frugal_example = starttls-frugal "smtp" mail_server

starttls-commands_example :
    (said : List Text) × (unsaid : List Text) × (said ++ unsaid ≡ commands_of "smtp")
    × ((starttls "smtp" mail_server).0.sent ≡ mail_server.sent ++ said)
    × ((starttls "smtp" mail_server).1 ≡ done tt → unsaid ≡ [])
starttls-commands_example = starttls-commands "smtp" mail_server
