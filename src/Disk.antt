-- ===== src/Disk.antt =====
-- std::fstream writes of ReceiveController::onSendChunk: a temporary file that is opened or created,
-- and a block written at an offset.
pub mod Blocks
use lan_send.Base.{
  ℕ, ◌+◌, ◌-◌, ◌≤◌, ◌<◌, String, Option, none, some, Bool, true, false, ◌&&◌, if◌then◌else◌, assign,
  List, [], ◌∷◌, ◌++◌, length, take, drop, replicate, is_nil, ltb,
}
use lan_send.Message.{Bytes}
use lan_send.Naming.{Disk, exists}

-- What the operating system allows during one call: opening the file, creating it, and how many
-- bytes of the block the device takes.
pub record ChunkIo : Type 0 where
  pub can_open : Bool
  pub can_create : Bool
  pub room : ℕ

-- Open for reading and writing, which keeps the content; else open for writing, which truncates.
unfoldable pub open_temp : ChunkIo → String → Disk → Option Disk
open_temp io path disk =
    if exists path disk && io.can_open
    then some disk
    else if io.can_create
    then some (assign path [] disk)
    else none

-- seekp and write: a gap behind the end is filled with zeros; an empty block changes nothing.
unfoldable pub write_at : ℕ → Bytes → Bytes → Bytes
write_at offset block content =
    if is_nil block
    then content
    else take offset (content ++ replicate (offset - length content) 0)
      ++ (block ++ drop (offset + length block) content)
