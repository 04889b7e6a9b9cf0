-- ===== src/Sd/Serving.antt =====
-- From the search for a card to its blocks: what kernel/src/kmain.c hands to the FAT32 driver.
use mnes_hrel.Sd.Card.{Card}
