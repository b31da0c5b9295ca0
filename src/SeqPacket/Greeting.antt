-- ===== src/SeqPacket/Greeting.antt =====
-- The callback of an established connection of a SeqPacketSocket that sends a packet.
