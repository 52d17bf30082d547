-- ===== src/Lib.antt =====
-- spearHED, a smoothed-particle-hydrodynamics code on top of spmacc: a model of its particle
-- bookkeeping and of its interaction passes, with what they promise.
--
-- A species' particles lie in frames of a fixed number of slots; the frames of a region hang in a
-- list, and the regions of a species in one buffer. A step refreshes the frame indices, pushes the
-- velocities, updates the regions' volumes, finds for every region the regions of each source that
-- it meets, lets every particle gather from its neighbours, and integrates. The files follow that:
--
-- RegionBuffer    packages/pmacc/include/spmacc/particles/regions/ParticleRegionBuffer.hpp and
--   ParticleRegion.hpp: create, pushBack, getDeviceDataBox, the transfers between host and device, and
--   the version counter.
-- FrameDispatch   packages/pmacc/include/spmacc/particles/algorithms/FrameDispatch.hpp: the
--   frame-count kernel, inclusiveScanHost, the grid policies.
-- FrameIndex      packages/pmacc/include/spmacc/particles/algorithms/FrameIndex.hpp: the index from
--   blocks to frames, its rebuild, growth, and freshness. Its state is the record FrameIndex; the
--   buffer that it watches is RegionBuffer's record.
-- ParticleInit    include/spearhed/particles/initialization/InitParticles.hpp, with
--   getSizeLastFrame of packages/pmacc/include/spmacc/FrameList.hpp: the kernels that create the
--   frames of a setup block and fill their slots.
-- Setup           include/spearhed/particles/initialization/InitRegions.hpp, SetupInterface.hpp and the
--   host side of InitParticles.hpp: the regions of a species and the launches that fill them.
-- FrameList       packages/pmacc/include/spmacc/SinglyLinkedListDevice.hpp, FrameList.hpp and
--   memory/utils.hpp: the list of a region's frames. Its threads' accesses interleave freely, in a
--   step relation; each access is seen by all at once.
-- TreeReduce      the shared-memory reduction of NeighbourRegions.hpp and RegionBoundsUpdate.hpp.
-- NeighbourRegions  packages/pmacc/include/spmacc/particles/regions/NeighbourRegions.hpp and
--   NeighbourEntry.hpp: the count kernel, the scan, the write kernel, and their chain.
-- Interaction     packages/pmacc/include/spmacc/particles/algorithms/ParticleParticleInteraction.hpp
--   and InteractParticles.hpp: register loads, staging, the compute sweep, write-back, the two
--   kernels, and the launch policies.
-- BoundingBox     packages/pmacc/include/spmacc/particles/regions/AABB.hpp: the boxes of the regions,
--   over an abstract scalar.
-- Hierarchy       packages/pmacc/include/spmacc/particles/algorithms/HierarchyForEach.hpp: the
--   sequential traversal down to regions, frames or particles.
-- FrameSchedule   packages/pmacc/include/spmacc/particles/algorithms/FrameSchedule.hpp and
--   LaunchForEach.hpp: the launch that calls a body for each live particle.
-- RegionBounds    packages/pmacc/include/spmacc/particles/regions/RegionBoundsUpdate.hpp: the update
--   of the regions' volumes, over BoundingBox, Hierarchy and TreeReduce.
-- Neighbourhood   the geometric test of NeighbourRegions.hpp, which NeighbourRegions takes as a
--   parameter, over the volumes of RegionBounds.
-- Lattice         packages/pmacc/include/spmacc/particles/initialization/SC.hpp: the cubic lattice.
-- Domain          include/spearhed/control/DomainAdjuster.hpp: domain sizes and offsets of the ranks.
-- Startup         include/spearhed/ArgsParser.cpp, main.x.cpp and control/SimulationStarter.hpp: from
--   the command line to the exit code.
-- Output          packages/pmacc/include/spmacc/particles/algorithms/CopyParticlesToDynSoA.hpp: the
--   copy of all particles into one array.
-- Sph             include/spearhed/particles/density/DensitySummation.hpp, sph/HydroForces.hpp and
--   particles/pusher: the functors that Interaction runs, the per-particle updates, and the stages
--   UpdateDensity and UpdateHydroForces, over FrameSchedule, Interaction and one FrameIndex.
-- Simulation      include/spearhed/control/Simulation.x.cpp: the order of a step's stages, the memory
--   probe, the reservation check, and the devices per dimension.
-- Base            the shared names, Boolean tests, lists, and tables with the launches over them.
--
-- Memory is a table from slot to content, Box. A launch is a list of blocks that run one after
-- another, in any order; so are the lockstep slots of a block. Where workers of one block race on a
-- counter (the write kernel), a schedule names the worker of each turn. What fresh device memory
-- holds is arbitrary. Machine words wrap where the source's do (u32, u64); the particle ids too. An
-- `int` that a cast can make negative is kept by its 32 bits, and a negative size of a buffer or a
-- grid, which the source casts from an unsigned count, is a failed result.
--
-- Loops run on fuel where they do not count: the growth of the index has 32 doublings, the binary
-- search one round per region and one more, the strided count one round per source and one more,
-- the reduction one per worker and one more, the update of the volumes one per region and one more,
-- the traversal of a buffer goes down four levels, the memory probe one per byte to test and one
-- more, a walk of a list one per node and one more. Running out is a result of its own, and the
-- results below say that it does not happen.
--
-- Parameters stand for what is outside: the scalars, the smoothing kernel and the equation of
-- state, in Interaction the functor and in NeighbourRegions whether two volumes meet (Sph and
-- Neighbourhood fill these two), alpaka's divCeil, the setup's placement of particles, the success
-- of a test allocation, and whether the device heap gives a block a frame. Left out are
-- floating-point values and the formulas of the kernels, the asynchronous senders (a chain of them
-- is a sequence here), the compile-time records of llamaLite, the output plugins, the checkpoints,
-- and the PMacc library itself.
pub mod Base
pub mod BoundingBox
pub mod Domain
pub mod FrameDispatch
pub mod FrameIndex
pub mod FrameList
pub mod FrameSchedule
pub mod Hierarchy
pub mod Interaction
pub mod Lattice
pub mod NeighbourRegions
pub mod Neighbourhood
pub mod Output
pub mod ParticleInit
pub mod RegionBounds
pub mod RegionBuffer
pub mod Setup
pub mod Simulation
pub mod Sph
pub mod Startup
pub mod TreeReduce
