-- ===== src/Tests/Netconf.antt =====
-- The framing of go/nl6/netconf_framing.go on a short message.
use nl.Prelude.{◌≡◌, true, [], ◌∷◌, ◌++◌, arith}
use nl.Netconf.{read, read_message, write_message}
use nl.Netconf.Total.{Within, most_read, read_message-Answers}
use nl.Netconf.Chunks.{read_message-write_message}

read_message-write_message_example :
    read_message true (write_message true (60 ∷ 47 ∷ 62 ∷ []) ++ (10 ∷ []))
    ≡ read (60 ∷ 47 ∷ 62 ∷ []) (10 ∷ [])
read_message-write_message_example =
    read_message-write_message (60 ∷ 47 ∷ 62 ∷ []) (10 ∷ []) (omega arith)

-- A stream that ends inside a chunk.
read_message-Answers_example :
    Within (most_read true) 6 (read_message true (10 ∷ 35 ∷ 52 ∷ 10 ∷ 60 ∷ 47 ∷ []))
read_message-Answers_example = read_message-Answers true (10 ∷ 35 ∷ 52 ∷ 10 ∷ 60 ∷ 47 ∷ [])
