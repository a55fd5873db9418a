-- ===== src/Lib.antt =====
-- fsview makes virtual disks (CD, FAT32, HFS+) out of the files of a source disk without copying
-- them. This is its core as definitions, with the theorems that they satisfy.
--
-- Parts, in the order in which data goes through the program:
-- - Extent.antt: ranges, block arithmetic, media and extents of impl/extent.h.
-- - Burner.antt: the planner of impl/burner.h and impl/burner.cpp, which lists extents, pads them to
--   blocks, and commits them to a burner. Burner/Burned has the commit into any burner that appends
--   the bytes of its extents; VectBurner, the burner into memory whose bytes later extents may stand
--   for, is modelled with its bytes (Burner/Commit). Planner::append, IAppend::padTo, Planner::wrapToGo and Planner::commit are
--   Burner.append, pad_to, wrap_to_go and commit.
-- - Device.antt: Geometry and Colonies of impl/device.h and impl/device.cpp. chart and optimize
--   collect and merge the extents of the source files, write_files lays them out on a planner, and
--   within_disk answers where a source byte is then on the target.
-- - Text.antt: impl/strdec.h, impl/strdec.cpp, impl/strenc.h, impl/strenc.cpp and impl/strenc.inc: the
--   decoders of file names, the Apple decompositions (the European table is in Text/Euro), and the
--   packing of characters for CDFS and FAT.
-- - Names.antt: impl/unique.h and impl/unique.cpp: the checksum of volume labels, the rules that make
--   a name fit a file system, and the pool that makes names unique in a directory.
-- - Fat.antt: VFatMedium of impl/vfat32.h and impl/vfat32.cpp, the FAT32 allocation table, which is a
--   rule (every cluster leads to the next one) with amendments where the extents of files end.
--   Fat/Headers has the first sectors, Fat/Entry the directory entries and Fat/LongName those of
--   long names.
-- - Volume.antt: impl/volume.h and impl/volume.cpp, what the three file systems share: the block size
--   (adjust) and the area that a slave may fill (plan_reserved).
-- - Cd.antt: impl/cd9660.h and impl/cd9660.cpp, the volume of a CD: the directory records. Cd/Naming
--   has the names and the order of a folder's entries, Cd/Files their records, Cd/Folders the loop of
--   CD9660Out::plan over the folders and what waits for the place of a parent, Cd/PathTable the path
--   table, Cd/Dates the times (with impl/datetm.cpp), Cd/Descriptors the volume descriptors and
--   planHeaders, and Cd/Plan the order of the calls in CD9660Out::plan. Cd/Records has the reader of
--   a folder, and Names/Order the comparison of names.
-- - Master.antt: impl/master.h and impl/master.cpp, the master boot record.
-- - Endian.antt: impl/endian.h, the words of a fixed byte order.
-- - Hfs.antt: impl/hfplus.h and impl/hfplus.cpp. Hfs/Forks, Hfs/Entries and Hfs/Headers are the
--   structures on disk, each with the list of its bytes; Hfs/Node is NodeSpec; Hfs/Tree and
--   Hfs/Builder are TreeBuilder, level by level up to the root and its node map; Hfs/Catalog is
--   onEntry with the catalog as an ordered list; Hfs/FileForks is the loop over a file's extents.
-- - Base.antt: shared names and lemmas: tests, lists, sorted maps, bits and machine words.
--
-- Device writes through the planner of Burner, the file systems commit it to a burner, the clusters
-- that Fat links are the answers of within_area in blocks, and names come from Names over strings of
-- Text. An extent holds a pointer to its medium, so the definitions that read bytes take the media as
-- they are at that time (Media).
--
-- off64_t is the two's complement word below 2 ^ 64; what would overflow it is refused as `none`, as
-- are abort(), exceptions that nothing catches, and reads out of bounds. Names.vary, the retry loop of
-- NamePool::fitName, runs on fuel, one unit for each attempt; the digits of a variant have the ten
-- units that an int can need. The levels of a tree run on as many units as there are indices, its map
-- nodes on one more than there are nodes, and the chunks of a bitmap on as many as there are bytes,
-- and this is enough (compact_btree_total, map_nodes_total). The walk over the path table runs on one
-- unit for each folder, which is enough (walk_from_total), and the reader of a folder on two for
-- each record and five more (write_entries-ReadsBack). All other loops are
-- recursions on the list that they walk.
--
-- Not modelled: what of VFat32Out and HFPlusOut places the directories and the trees, the walk
-- over the source tree (impl/source.cpp), the command line (conf), and what only calls the kernel:
-- burners to files, ZRam and the device mapper, FIEMAP, resource limits and attributes. Printed output
-- is left out.
pub mod Base
pub mod Burner
pub mod Cd
pub mod Device
pub mod Endian
pub mod Extent
pub mod Fat
pub mod Hfs
pub mod Master
pub mod Names
pub mod Text
pub mod Volume
