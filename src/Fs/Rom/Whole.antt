-- ===== src/Fs/Rom/Whole.antt =====
-- Reading a file of fs/romfs.c in pieces gives all of it.
