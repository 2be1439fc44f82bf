-- ===== src/PacketPipe/Runs.antt =====
-- Concrete runs of the pipe, and its theorems at concrete inputs.
use xul.Prelude.{◌≡◌, refl, true, some, List, [], ◌∷◌, Bytes, codes, map, arith}
use xul.PacketPipe.{create}
use xul.PacketPipe.Packets.{read_times, read_times-packets, feed_all, packets}
use xul.MessageDecoder.Chunks.{concat}
use xul.BitConverter.{from_dword}

abbrev two_messages : List Bytes
two_messages = codes "ab" ∷ codes "c" ∷ []

-- The stream of the two packets, cut within the first length and the second message.
abbrev cut_anywhere : List Bytes
cut_anywhere = (0 ∷ 0 ∷ []) ∷ (0 ∷ 2 ∷ 97 ∷ 98 ∷ 0 ∷ 0 ∷ 0 ∷ 1 ∷ []) ∷ (99 ∷ []) ∷ []

whole : concat cut_anywhere ≡ packets true two_messages
unfolding from_dword
whole = refl

read_times-packets_example :
    read_times 16 2 (feed_all cut_anywhere (create true)) ≡ map some two_messages
read_times-packets_example =
    read_times-packets 16 true cut_anywhere two_messages whole (omega arith) (omega arith)
