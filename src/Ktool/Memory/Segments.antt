-- ===== src/Ktool/Memory/Segments.antt =====
-- ktool.py: where the segments of an ELF file go.
