-- ===== src/Packet/Inspection/Examples.antt =====
-- The inspection of src/packet/packet_inspector.cpp on the text of a capture file.
use slipnet.Prelude.{some, Bytes, codes}
use slipnet.Packet.Inspector.{load_capture}
use slipnet.Packet.Inspection.{inspect_file}
use slipnet.Packet.Inspection.Judged.{Judged, inspect_file-Judged}

abbrev text : Bytes
text = codes "SLIPNET_CAPTURE_V2\n[PACKET]\nid=7\nprotocol=UDP\nlength=60\ndecoded=true\n"

inspect_file-Judged_example : Judged (load_capture text) 7 (inspect_file (some text) 7)
inspect_file-Judged_example = inspect_file-Judged text 7
